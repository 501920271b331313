-- ===== src/Chaos/Cycle.antt =====
-- What a passed chaos run shows.
use twin_services.Base.{
  ℕ, ◌≡◌, ◌↔◌, ◌⊎◌, inl, inr, refl, sym, ◌∙◌, Text, codes, text_eq, text_eq_iff, Bool, true, false,
  not, ◌&&◌, List, [], ◌∷◌, map, All, Bool-cases, if◌then◌else◌, arith,
}
use twin_services.Chaos.{
  services, expected_degraded, survivors, Command, kill, start, Answer, unreachable, probe, is_ok,
  is_none, all_ready, wait_until, Probes, survivor_ok, check_survivors, Trial, run_cycle, failures,
  main,
}
use twin_services.Chaos.Answers.{
  IsUp, Some, is_ok-probe, is_none-probe, wait_until-Some, all-All, keep-All,
}

-- The four services where they are deployed.
abbrev pub deployment : List (Text × ℕ)
deployment =
    (codes "telemetry-svc", 8001)
    ∷ (codes "state-svc", 8002)
    ∷ (codes "command-svc", 8003)
    ∷ (codes "viz-svc", 8004)
    ∷ []

-- The service is alive, and ready unless it is viz-svc behind a kill of state-svc.
abbrev pub IsGraceful : Text → Probes → Text × ℕ → Type 0
IsGraceful victim probes (name, port) =
    IsUp (probes.live port)
    × (IsUp (probes.ready port) ⊎ ((victim ≡ codes "state-svc") × (name ≡ codes "viz-svc")))

-- Every service of the deployment but the victim is graceful.
abbrev pub AreGraceful : Text → Probes → Type 0
AreGraceful victim probes =
    All (λ (p : Text × ℕ). (p.0 ≡ victim) ⊎ IsGraceful victim probes p) deployment

-- Every service of the deployment is ready.
abbrev pub AreReady : (ℕ → Answer) → Type 0
AreReady ready = All (λ (p : Text × ℕ). IsUp (ready p.1)) deployment

survivor_ok-IsGraceful :
    (victim : Text) (probes : Probes) (p : Text × ℕ)
    → (survivor_ok victim probes p ≡ true) ↔ IsGraceful victim probes p
unfolding survivor_ok expected_degraded
survivor_ok-IsGraceful victim probes (name, port) =
    let l = is_ok-probe (probes.live port) in
    let r = is_ok-probe (probes.ready port) in
    let v = text_eq_iff victim (codes "state-svc") in
    let n = text_eq_iff name (codes "viz-svc") in
    by (is_ok (probe (probes.live port))) (is_ok (probe (probes.ready port)))
      (text_eq victim (codes "state-svc")) (text_eq name (codes "viz-svc")) l r v n
  where
    by :
        {L R V N : Type 0} (a b c d : Bool)
        → (a ≡ true) ↔ L
        → (b ≡ true) ↔ R
        → (c ≡ true) ↔ V
        → (d ≡ true) ↔ N
        → ((if not a then false else if not b && not (c && d) then false else true) ≡ true)
          ↔ (L × (R ⊎ (V × N)))
    by true true c d l r v n = (λ h. (l.0 refl, inl (r.0 refl)), λ x. refl)
    by true false true true l r v n = (λ h. (l.0 refl, inr (v.0 refl, n.0 refl)), λ x. refl)
    by true false true false l r v n =
        (λ h. cc, λ x. elim x.1 [ inl e ↦ cc (r.1 e) | inr p ↦ cc (n.1 p.1) ])
    by true false false d l r v n =
        (λ h. cc, λ x. elim x.1 [ inl e ↦ cc (r.1 e) | inr p ↦ cc (v.1 p.0) ])
    by false b c d l r v n = (λ h. cc, λ x. cc (l.1 x.0))

check_survivors-false :
    (victim : Text) (probes : Probes) (ps : List (Text × ℕ))
    → check_survivors victim probes ps false ≡ false
unfolding check_survivors
check_survivors-false victim probes [] = refl
check_survivors-false victim probes (p ∷ ps) =
    ground (arith, check_survivors-false victim probes ps)

check_survivors-All :
    (victim : Text) (probes : Probes) (ps : List (Text × ℕ))
    → (check_survivors victim probes ps true ≡ true) ↔ All (IsGraceful victim probes) ps
unfolding check_survivors
check_survivors-All victim probes [] = (λ h. tt, λ a. refl)
check_survivors-All victim probes (p ∷ ps) = elim (Bool-cases (survivor_ok victim probes p)) [
  | inl pass ↦
      let here = (survivor_ok-IsGraceful victim probes p).0 pass in
      let (to, from) = check_survivors-All victim probes ps in
      (
        λ h. (here, to (rw (pass, check_survivors) at h)),
        λ a. rw (pass, check_survivors) (from a.1),
      )
  | inr fail ↦ (
    λ h. cc (sym (check_survivors-false victim probes ps) ∙ rw fail at h),
    λ a. cc (sym fail ∙ (survivor_ok-IsGraceful victim probes p).1 a.0),
  )
]

all_passed :
    (a b c : Bool) (k s : List Command)
    → (let out : Bool × List Command =
          if not a
          then (false, k)
          else if not b
          then (false, s)
          else if not c
          then (false, s)
          else (true, s) in
        out.0 ≡ true)
    → (a ≡ true) × (b ≡ true) × (c ≡ true)
all_passed true true true k s h = (refl, refl, refl)
all_passed true true false k s h = cc
all_passed true false c k s h = cc
all_passed false b c k s h = cc

-- A cycle passes exactly when a poll finds the victim unreachable, every other service of the
-- deployment then answers 200 as alive and, unless it is viz-svc behind a kill of state-svc, as ready,
-- and a later poll finds all four services ready.
pub run_cycle_exactly :
    (victim : Text) (t : Trial)
    → ((run_cycle victim t).0 ≡ true) ↔ (
        Some (λ a. a ≡ unreachable) t.gone
        × AreGraceful victim t.probes
        × Some AreReady t.recovered)
unfolding run_cycle survivors all_ready
run_cycle_exactly victim t =
    let g = wait_until-Some (λ a. a ≡ unreachable) (λ a. is_none (probe a)) is_none-probe t.gone in
    let c = check_survivors-All victim t.probes (survivors victim) in
    let k =
      keep-All (IsGraceful victim t.probes) (λ (p : Text × ℕ). p.0 ≡ victim)
        (λ (p : Text × ℕ). not (text_eq p.0 victim)) (is_victim victim) services in
    let r =
      wait_until-Some AreReady all_ready
        (λ ready.
          all-All (λ (p : Text × ℕ). IsUp (ready p.1)) (λ (p : Text × ℕ). is_ok (probe (ready p.1)))
            (λ p. is_ok-probe (ready p.1)) services)
        t.recovered in
    (
      λ h.
          let (p, q, s) =
            all_passed (wait_until (map (λ a. is_none (probe a)) t.gone))
              (check_survivors victim t.probes (survivors victim) true)
              (wait_until (map all_ready t.recovered)) (kill victim ∷ [])
              (kill victim ∷ start victim ∷ []) h in
          (g.0 p, k.0 (c.0 q), r.0 s),
      λ (p, q, s). rw (g.1 p, c.1 (k.1 q), r.1 s) refl,
    )
  where
    is_victim : (victim : Text) (p : Text × ℕ) → (not (text_eq p.0 victim) ≡ false) ↔ (p.0 ≡ victim)
    is_victim victim p = ground (arith, text_eq_iff p.0 victim)

failures-none :
    (trial : Text → Trial) (victims : List (Text × ℕ))
    → (failures trial victims ≡ [])
      ↔ All (λ (v : Text × ℕ). (run_cycle v.0 (trial v.0)).0 ≡ true) victims
unfolding failures
failures-none trial [] = (λ h. tt, λ a. refl)
failures-none trial ((v, port) ∷ vs) = elim (Bool-cases (run_cycle v (trial v)).0) [
  | inl pass ↦
      let (to, from) = failures-none trial vs in
      (λ h. (pass, to (rw (pass, failures) at h)), λ a. rw (pass, failures) (from a.1))
  | inr fail ↦ (λ h. cc (rw (fail, failures) at h), λ a. cc (sym fail ∙ a.0))
]

no_failure : (vs : List Text) → (elim vs as (λ x. ℕ) [ [] ↦ 0 | v ∷ ws ↦ 1 ]) ≡ 0 → vs ≡ []
no_failure [] h = refl
no_failure (v ∷ vs) h = absurd (omega arith)

-- The script exits with 0 exactly when all services were ready at the start and the cycle of every
-- service passed.
pub main_exactly :
    (ready : ℕ → Answer) (trial : Text → Trial)
    → (main ready trial ≡ 0)
      ↔ (AreReady ready × All (λ (v : Text × ℕ). (run_cycle v.0 (trial v.0)).0 ≡ true) deployment)
unfolding main
main_exactly ready trial = elim (Bool-cases (all_ready ready)) [
  | inl up ↦ (
    λ h. (
      r.0 up,
      (failures-none trial services).0 (no_failure (failures trial services) (rw up at h)),
    ),
    λ p. rw (up, (failures-none trial services).1 p.1, main) refl,
  )
  | inr down ↦ (
    λ h. (let wrong : ◌≡◌ {A = ℕ} 2 0 = rw (down, main) at h in absurd (omega arith)),
    λ p. cc (sym down ∙ r.1 p.0),
  )
]
  where
    r : (all_ready ready ≡ true) ↔ AreReady ready
    r =
        unfold all_ready in
        all-All (λ (p : Text × ℕ). IsUp (ready p.1)) (λ (p : Text × ℕ). is_ok (probe (ready p.1)))
          (λ p. is_ok-probe (ready p.1)) services
