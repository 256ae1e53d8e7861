-- ===== src/Alarms/Engine/Index.antt =====
-- The indexes of the engine list exactly the rules that an observation concerns.
use superviseur.Prelude.{
  ℕ, ◌≡◌, Bool, ◌&&◌, List, [], ◌∷◌, ◌++◌, append-nil, append_assoc, arith, ◌==◌, nat_eq, or_else,
  if◌then◌else◌, Bool-cases, inl, inr,
}
use superviseur.Prelude.Dict.{Dict, lookup, lookup-insert}
use superviseur.Alarms.Runtime.{RuleRuntime}
use superviseur.Alarms.Engine.{
  AlarmEngine, Rules, append_to, index, index_rule, index_rules, is_comm_lost,
}

-- The ids of the rules that a test selects, in the order of the rules.
abbrev pub ids_where : (RuleRuntime → Bool) → Rules → List ℕ
ids_where test [] = []
ids_where test ((id, rt) ∷ rules) =
    let rest = ids_where test rules in if test rt then id ∷ rest else rest

abbrev ids_at : ℕ → Dict ℕ (List ℕ) → List ℕ
ids_at key d = or_else (lookup key d) []

ids_at-append_to :
    (key other id : ℕ) (d : Dict ℕ (List ℕ))
    → ids_at other (append_to key id d)
      ≡ (if key == other then ids_at other d ++ id ∷ [] else ids_at other d)
ids_at-append_to key other id d =
    ground (arith, lookup-insert key other (or_else (lookup key d) [] ++ id ∷ []) d)

-- The lists that an engine holds for one point, device and object.
abbrev pub of_point : ℕ → AlarmEngine → List ℕ
of_point p e = ids_at p e.by_point

abbrev pub of_device : ℕ → AlarmEngine → List ℕ
of_device d e = ids_at d e.by_device

abbrev watches_point : ℕ → RuleRuntime → Bool
watches_point p rt = rt.rec.point_id == p

abbrev watches_device : ℕ → RuleRuntime → Bool
watches_device d rt = is_comm_lost rt.rec.kind && (rt.rec.device_id == d)

index_rule-of_point :
    (p id : ℕ) (rt : RuleRuntime) (e : AlarmEngine)
    → of_point p (index_rule (id, rt) e)
      ≡ (if watches_point p rt then of_point p e ++ id ∷ [] else of_point p e)
unfolding index_rule
index_rule-of_point p id rt e = ids_at-append_to rt.rec.point_id p id e.by_point

index_rule-of_device :
    (d id : ℕ) (rt : RuleRuntime) (e : AlarmEngine)
    → of_device d (index_rule (id, rt) e)
      ≡ (if watches_device d rt then of_device d e ++ id ∷ [] else of_device d e)
unfolding index_rule
index_rule-of_device d id rt e = ground (arith, ids_at-append_to rt.rec.device_id d id e.by_device)

-- One argument for both: a list that each round extends where a test selects the rule.
index_rules-gather :
    (read : AlarmEngine → List ℕ) (test : RuleRuntime → Bool)
    → ((id : ℕ) (rt : RuleRuntime) (e : AlarmEngine)
        → read (index_rule (id, rt) e) ≡ (if test rt then read e ++ id ∷ [] else read e))
    → (rules : Rules) (e : AlarmEngine)
    → read (index_rules rules e) ≡ read e ++ ids_where test rules
unfolding index_rules
index_rules-gather read test step [] e = rw append-nil
index_rules-gather read test step ((id, rt) ∷ rules) e = elim (Bool-cases (test rt)) [
  | inl yes_ ↦
      rw (index_rules-gather read test step rules (index_rule (id, rt) e), step id rt e)
        (rw yes_ (append_assoc (read e) (id ∷ []) (ids_where test rules)))
  | inr no_ ↦
      rw (index_rules-gather read test step rules (index_rule (id, rt) e), step id rt e) (rw no_)
]

-- After `_index` a value of a point reaches exactly the rules on that point, and the status of a
-- device exactly the `comm_lost` rules on that device, each once and in the order of the rules.
pub index_complete :
    (rules : Rules) (p d : ℕ)
    → (of_point p (index rules) ≡ ids_where (λ rt. rt.rec.point_id == p) rules)
      × (of_device d (index rules)
          ≡ ids_where (λ rt. is_comm_lost rt.rec.kind && (rt.rec.device_id == d)) rules)
unfolding index
index_complete rules p d = (
  index_rules-gather (of_point p) (watches_point p) (index_rule-of_point p) rules _,
  index_rules-gather (of_device d) (watches_device d) (index_rule-of_device d) rules _,
)
