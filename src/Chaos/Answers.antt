-- ===== src/Chaos/Answers.antt =====
-- What probes, polls and loops over the services say of the endpoints' answers.
use twin_services.Base.{
  ℕ, ◌≡◌, ◌↔◌, ◌⊎◌, inl, inr, refl, sym, ap, ◌∙◌, Bool, true, false, Option, some, List, [], ◌∷◌,
  map, keep, all, All, Bool-cases, arith,
}
use twin_services.Chaos.{
  Answer, responds, http_error, unreachable, probe, is_ok, is_none, wait_until,
}

-- An endpoint says 200.
abbrev pub IsUp : Answer → Type 0
IsUp a = (a ≡ responds 200) ⊎ (a ≡ http_error 200)

abbrev pub Some {ℓ} : {A : Type ℓ} → (A → Type 0) → List A → Type 0
Some P [] = ⊥
Some P (x ∷ xs) = P x ⊎ Some P xs

is_ok_iff : (o : Option ℕ) → (is_ok o ≡ true) ↔ (o ≡ some 200)
is_ok_iff o = ground arith

pub is_ok-probe : (a : Answer) → (is_ok (probe a) ≡ true) ↔ IsUp a
unfolding probe
is_ok-probe (responds n) = (
  λ h. let e = (is_ok_iff (some n)).0 h in let same : n ≡ 200 = cc in inl (ap responds same),
  λ u. elim u [
    | inl e ↦ (let same : n ≡ 200 = cc in (is_ok_iff (some n)).1 (ap some same))
    | inr e ↦ cc
  ],
)
is_ok-probe (http_error n) = (
  λ h. let e = (is_ok_iff (some n)).0 h in let same : n ≡ 200 = cc in inr (ap http_error same),
  λ u. elim u [
    | inl e ↦ cc
    | inr e ↦ (let same : n ≡ 200 = cc in (is_ok_iff (some n)).1 (ap some same))
  ],
)
is_ok-probe unreachable = (λ h. cc, λ u. elim u [ inl e ↦ cc | inr e ↦ cc ])

pub is_none-probe : (a : Answer) → (is_none (probe a) ≡ true) ↔ (a ≡ unreachable)
unfolding probe
is_none-probe (responds n) = (λ h. cc, λ e. cc)
is_none-probe (http_error n) = (λ h. cc, λ e. cc)
is_none-probe unreachable = (λ h. refl, λ e. refl)

pub wait_until-Some :
    {A : Type 0} (P : A → Type 0) (test : A → Bool)
    → ((a : A) → (test a ≡ true) ↔ P a)
    → (polls : List A) → (wait_until (map test polls) ≡ true) ↔ Some P polls
unfolding wait_until
wait_until-Some P test iff [] = (λ h. cc, λ s. absurd s)
wait_until-Some P test iff (a ∷ polls) = elim (Bool-cases (test a)) [
  | inl pass ↦ (λ h. inl ((iff a).0 pass), λ s. rw (pass, wait_until) refl)
  | inr fail ↦
      let (to, from) = wait_until-Some P test iff polls in
      (
        λ h. inr (to (rw (fail, wait_until) at h)),
        λ s. elim s [
          | inl p ↦ cc (sym fail ∙ (iff a).1 p)
          | inr r ↦ rw (fail, wait_until) (from r)
        ],
      )
]

pub all-All :
    {A : Type 0} (P : A → Type 0) (test : A → Bool)
    → ((a : A) → (test a ≡ true) ↔ P a)
    → (xs : List A) → (all test xs ≡ true) ↔ All P xs
all-All P test iff [] = (λ h. tt, λ a. refl)
all-All P test iff (x ∷ xs) = elim (Bool-cases (test x)) [
  | inl pass ↦
      let (to, from) = all-All P test iff xs in
      (λ h. ((iff x).0 pass, to (rw pass at h)), λ a. rw pass (from a.1))
  | inr fail ↦ (λ h. cc (rw fail at h), λ a. cc (sym fail ∙ (iff x).1 a.0))
]

-- What all that are kept have, and the others need not.
pub keep-All :
    {A : Type 0} (P Q : A → Type 0) (test : A → Bool)
    → ((a : A) → (test a ≡ false) ↔ Q a)
    → (xs : List A) → All P (keep test xs) ↔ All (λ a. Q a ⊎ P a) xs
keep-All P Q test iff [] = (λ h. tt, λ a. tt)
keep-All P Q test iff (x ∷ xs) = elim (Bool-cases (test x)) [
  | inl kept ↦
      let (to, from) = keep-All P Q test iff xs in
      rw kept (
        (λ a. (inr a.0, to a.1)),
        (λ a. (elim a.0 [ inl q ↦ cc (sym kept ∙ (iff x).1 q) | inr p ↦ p ], from a.1)),
      )
  | inr left ↦
      let (to, from) = keep-All P Q test iff xs in
      rw left ((λ a. (inl ((iff x).0 left), to a)), (λ a. from a.1))
]
