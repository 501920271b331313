-- ===== src/State/Hub/Mailbox.antt =====
-- Queues of size one, and the board that a hub of them shows.
use twin_services.Base.{
  ℕ, ◌≡◌, refl, ap, inl, inr, Option, none, some, List, [], ◌∷◌, arith, length, ◌≤◌, ◌==◌,
  Bool-cases,
}
use mathlib.Core.Path.{subst}
use twin_services.Base.Eq.{Dict, lookup, insert, remove, map_values, nat_is_eq}
use twin_services.Base.Result.{ok}
use twin_services.State.Hub.{Queue, Hub, deliver, deliver_all}
use twin_services.State.Hub.Board.{Board}

-- A mailbox of size one.
pub record IsMailbox {A : Type 0} (q : Queue A) : Type 0 where
  pub one : q.maxsize ≡ 1
  pub fits : length q.items ≤ 1

abbrev pub AreMailboxes : {A : Type 0} → Dict ℕ (Queue A) → Type 0
AreMailboxes [] = Unit
AreMailboxes ((i, q) ∷ d) = IsMailbox q × AreMailboxes d

abbrev pub first : {A : Type 0} → List A → Option A
first [] = none
first (a ∷ rest) = some a

-- The state that waits in a queue.
abbrev pub waiting : {A : Type 0} → Queue A → Option A
waiting q = first q.items

abbrev pub board : {A : Type 0} → Hub A → Board A
board h = record { latest = h.latest; unread = map_values waiting h.subscribers }

abbrev pub holding : {A : Type 0} → A → Queue A
holding a = record { maxsize = 1; items = a ∷ [] }

module _ {A : Type 0} where
  deliver_items :
      (a : A) (n : ℕ) (items : List A)
      → n ≡ 1
      → length items ≤ 1
      → deliver a (record { maxsize = n; items = items }) ≡ ok (holding a)
  unfolding deliver
  deliver_items a n [] e le = rw e
  deliver_items a n (x ∷ []) e le = rw e
  deliver_items a n (x ∷ y ∷ items) e le = absurd (omega arith)

  deliver_mailbox : (a : A) (q : Queue A) → IsMailbox q → deliver a q ≡ ok (holding a)
  deliver_mailbox a q m = deliver_items a q.maxsize q.items m.one m.fits

  pub deliver_all-mailboxes :
      (a : A) (d : Dict ℕ (Queue A))
      → AreMailboxes d
      → deliver_all a d ≡ ok (map_values (λ _. holding a) d)
  unfolding deliver_all
  deliver_all-mailboxes a [] m = refl
  deliver_all-mailboxes a ((i, q) ∷ d) m =
      rw (deliver_mailbox a q m.0, deliver_all-mailboxes a d m.1)

  pub waiting-holding :
      (a : A) (d : Dict ℕ (Queue A))
      → map_values waiting (map_values (λ (q : Queue A). holding a) d)
        ≡ map_values (λ (o : Option A). some a) (map_values waiting d)
  waiting-holding a [] = refl
  waiting-holding a ((i, q) ∷ d) = ap (◌∷◌ (i, some a)) (waiting-holding a d)

  pub AreMailboxes-holding :
      (a : A) (d : Dict ℕ (Queue A)) → AreMailboxes (map_values (λ (q : Queue A). holding a) d)
  AreMailboxes-holding a [] = tt
  AreMailboxes-holding a ((i, q) ∷ d) = (omega arith, AreMailboxes-holding a d)

  pub AreMailboxes-insert :
      (i : ℕ) (q : Queue A) (d : Dict ℕ (Queue A))
      → IsMailbox q
      → AreMailboxes d
      → AreMailboxes (insert i q d)
  unfolding insert
  AreMailboxes-insert i q [] n m = (n, tt)
  AreMailboxes-insert i q ((j, r) ∷ d) n m = ground (arith, AreMailboxes-insert i q d n m.1)

  pub AreMailboxes-remove :
      (i : ℕ) (d : Dict ℕ (Queue A)) → AreMailboxes d → AreMailboxes (remove i d)
  unfolding remove
  AreMailboxes-remove i [] m = tt
  AreMailboxes-remove i ((j, r) ∷ d) m = ground (arith, AreMailboxes-remove i d m.1)

  pub AreMailboxes-lookup :
      (i : ℕ) (d : Dict ℕ (Queue A)) (q : Queue A)
      → AreMailboxes d
      → lookup i d ≡ some q
      → IsMailbox q
  unfolding lookup
  AreMailboxes-lookup i [] q m e = cc
  AreMailboxes-lookup i ((j, r) ∷ d) q m e = elim (Bool-cases (j == i)) [
    | inl same ↦ let is : r ≡ q = ground arith in subst IsMailbox is m.0
    | inr other ↦ AreMailboxes-lookup i d q m.1 (ground arith)
  ]
