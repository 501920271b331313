-- ===== src/Chaos.antt =====
-- scripts/chaos.py. What the health endpoints answer is an argument: for a wait, the answers at the
-- polls up to the deadline, in order.
pub mod Answers
pub mod Cycle
use twin_services.Base.{
  ℕ, Text, codes, Bool, true, false, not, ◌&&◌, Option, none, some, List, [], ◌∷◌, keep, map, all,
  ◌==◌, text_eq, if◌then◌else◌,
}

-- `SERVICES`: the names with their ports, in order.
abbrev pub services : List (Text × ℕ)
services =
    (codes "telemetry-svc", 8001)
    ∷ (codes "state-svc", 8002)
    ∷ (codes "command-svc", 8003)
    ∷ (codes "viz-svc", 8004)
    ∷ []

-- `name in EXPECTED_CASCADE.get(victim, set())`
unfoldable pub expected_degraded : Text → Text → Bool
expected_degraded victim name = text_eq victim (codes "state-svc") && text_eq name (codes "viz-svc")

-- `survivors`
unfoldable pub survivors : Text → List (Text × ℕ)
survivors victim = keep (λ (p : Text × ℕ). not (text_eq p.0 victim)) services

-- The calls of `docker compose`.
pub data Command : Type 0 where
  kill start : Text → Command

-- What `urlopen` does: it returns a response with a status, or raises HTTPError with a code, or
-- URLError or OSError.
pub data Answer : Type 0 where
  responds http_error : ℕ → Answer
  unreachable : Answer

unfoldable pub probe : Answer → Option ℕ
probe (responds status) = some status
probe (http_error code) = some code
probe unreachable = none

-- `== HTTP_OK`
abbrev pub is_ok : Option ℕ → Bool
is_ok none = false
is_ok (some status) = status == 200

-- `probe(port, "live") is None`
abbrev pub is_none : Option ℕ → Bool
is_none none = true
is_none (some status) = false

-- `all_ready`, by what each port answers to /healthz/ready.
unfoldable pub all_ready : (ℕ → Answer) → Bool
unfolding probe
all_ready ready = all (λ (p : Text × ℕ). is_ok (probe (ready p.1))) services

-- `wait_until`: whether a poll before the deadline succeeds.
unfoldable pub wait_until : List Bool → Bool
wait_until [] = false
wait_until (poll ∷ polls) = if poll then true else wait_until polls

-- What the ports of the survivors answer to /healthz/live and /healthz/ready.
pub record Probes : Type 0 where
  pub live : ℕ → Answer
  pub ready : ℕ → Answer

-- One round of the loop over the survivors: whether `ok` stays.
unfoldable pub survivor_ok : Text → Probes → Text × ℕ → Bool
unfolding expected_degraded probe
survivor_ok victim probes (name, port) =
    let alive = is_ok (probe (probes.live port)) in
    let ready = is_ok (probe (probes.ready port)) in
    if not alive
    then false
    else if not ready && not (expected_degraded victim name)
    then false
    else true

-- The loop: every survivor is probed, and a failure is remembered.
unfoldable pub check_survivors : Text → Probes → List (Text × ℕ) → Bool → Bool
unfolding survivor_ok
check_survivors victim probes [] ok = ok
check_survivors victim probes (p ∷ ps) ok =
    check_survivors victim probes ps (if survivor_ok victim probes p then ok else false)

-- What a cycle meets: the answers of the victim until it is gone, the probes, and at each poll for
-- the recovery what the ports answer.
pub record Trial : Type 0 where
  pub gone : List Answer
  pub probes : Probes
  pub recovered : List (ℕ → Answer)

-- `run_cycle`, with the calls of `docker compose`.
unfoldable pub run_cycle : Text → Trial → Bool × List Command
unfolding wait_until check_survivors survivors all_ready probe
run_cycle victim t =
    if not (wait_until (map (λ a. is_none (probe a)) t.gone))
    then (false, kill victim ∷ [])
    else if not (check_survivors victim t.probes (survivors victim) true)
    then (false, kill victim ∷ start victim ∷ [])
    else if not (wait_until (map all_ready t.recovered))
    then (false, kill victim ∷ start victim ∷ [])
    else (true, kill victim ∷ start victim ∷ [])

-- The victims of `main` whose cycle failed, in order.
unfoldable pub failures : (Text → Trial) → List (Text × ℕ) → List Text
unfolding run_cycle
failures trial [] = []
failures trial ((victim, port) ∷ victims) =
    let rest = failures trial victims in
    if (run_cycle victim (trial victim)).0 then rest else victim ∷ rest

-- `main`: the exit status, by what the ports answer at the start.
unfoldable pub main : (ℕ → Answer) → (Text → Trial) → ℕ
unfolding failures all_ready
main ready trial =
    if not (all_ready ready) then 2 else elim (failures trial services) [ [] ↦ 0 | v ∷ vs ↦ 1 ]
