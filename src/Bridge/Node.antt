-- ===== src/Bridge/Node.antt =====
-- `start_ros_node` of bridge/src/bridge/main.py: the thread `rclpy-spin` that makes the ROS node, and
-- the caller that waits for it ten seconds. What `rclpy.init`, the constructor of the node,
-- `rclpy.spin` and the two calls behind `finally` do is part of the events.
pub mod Invariant
pub mod Start
use twin_services.Base.{ℕ, zero, suc, Bool, true, false, Option, none, some, List, [], ◌∷◌, ◌++◌}
use twin_services.Base.Result.{Result, ok, raise, index_error}
use twin_services.Bridge.{index}

-- The statement of `_spin` that the thread is at.
pub data Line : Type 0 where
  at_init at_node at_append at_set at_spin at_destroy at_shutdown at_end : Line

pub record Startup (Node : Type 0) : Type 0 where
  pub thread : Line
  pub node_box : List Node
  -- the flag of `threading.Event`
  pub ready : Bool
  -- the calls of `destroy_node` and of `rclpy.shutdown` that went through
  pub destroyed : ℕ
  pub shut_down : ℕ
  -- what the call has returned or raised; nothing while it waits
  pub answer : Option (Result Node)

-- The thread goes through its next statement, which raises when the Boolean is false; the waiting
-- caller notices the flag; or its ten seconds are over.
pub data Event : Type 0 where
  advances : Bool → Event
  wakes : Event
  times_out : Event

module _ {Node : Type 0} where
  unfoldable pub start : Startup Node
  start = record {
    thread = at_init;
    node_box = [];
    ready = false;
    destroyed = 0;
    shut_down = 0;
    answer = none;
  }

  abbrev goto : Line → Startup Node → Startup Node
  goto line s = record s { thread = line }

  -- `_spin`, where `node` is what `BridgeNode()` makes. What raises before the `try` ends the thread,
  -- and so does `destroy_node` before `rclpy.shutdown`; `spin` leads to `finally` in any case.
  pub spin_from : Node → Line → Bool → Startup Node → Startup Node
  spin_from node at_init true s = goto at_node s
  spin_from node at_init false s = goto at_end s
  spin_from node at_node true s = goto at_append s
  spin_from node at_node false s = goto at_end s
  spin_from node at_append success s = record s {
    node_box = s.node_box ++ node ∷ [];
    thread = at_set;
  }
  spin_from node at_set success s = record s { ready = true; thread = at_spin }
  spin_from node at_spin success s = goto at_destroy s
  spin_from node at_destroy true s = record s { destroyed = suc s.destroyed; thread = at_shutdown }
  spin_from node at_destroy false s = goto at_end s
  spin_from node at_shutdown true s = record s { shut_down = suc s.shut_down; thread = at_end }
  spin_from node at_shutdown false s = goto at_end s
  spin_from node at_end success s = s

  unfoldable pub spin : Node → Bool → Startup Node → Startup Node
  unfolding spin_from
  spin node success s = spin_from node s.thread success s

  -- `return node_box[0]`, once the wait is over.
  return_from : Option (Result Node) → Startup Node → Startup Node
  return_from none s = record s { answer = some (index s.node_box 0) }
  return_from (some r) s = s

  unfoldable pub return_node : Startup Node → Startup Node
  unfolding return_from
  return_node s = return_from s.answer s

  -- The wait is over once the flag is set.
  wake_from : Bool → Startup Node → Startup Node
  unfolding return_node
  wake_from true s = return_node s
  wake_from false s = s

  unfoldable pub step : Node → Event → Startup Node → Startup Node
  unfolding spin return_node wake_from
  step node (advances success) s = spin node success s
  step node wakes s = wake_from s.ready s
  step node times_out s = return_node s

  unfoldable pub run : Node → List Event → Startup Node → Startup Node
  unfolding step
  run node [] s = s
  run node (e ∷ es) s = run node es (step node e s)
