-- ===== src/Adapters/Assess/Policy.antt =====
-- nc/adapters.py: the policy of `_assess_air_failures` for one active record.
use neocortex.Acp.Wire.{under}
use neocortex.Acp.Contract.{listed}
use neocortex.Session.{is_temporary}
use neocortex.Adapters.Assess.{air_text, assess_single, failed_with, Platform, assess_air_record}
use neocortex.Adapters.Facts.{is_known_shape, is_listed_action}
use neocortex.Json.{Fields, Json, dict, get, is_str}
use neocortex.Prelude.{
  Bool-cases, List, String, arith, if◌then◌else◌, inl, inr, not, refl, Bool, [], all, any, false,
  null, true, ◌&&◌, ◌||◌, ◌∷◌, ◌≡◌,
}

-- The only active record: an error about a limit or a service that asks for a retry.
abbrev pub is_retry_record : Json → Bool
is_retry_record v = under v false λ fs.
    is_str "error" (get "severity" fs)
    && (is_str "limit" (get "category" fs) || is_str "service" (get "category" fs))
    && any (is_str "retry") (listed (get "actions" fs))
    && all is_listed_action (listed (get "actions" fs))

pub join_tests : (a b c d : Bool) → a && b && c ≡ true → d ≡ true → a && b && c && d ≡ true
join_tests a b c d h k = ground arith

-- The policy as a table over its tests.
pub policy_table :
    (error shape unlisted limit service retry : Bool) (prose text : String)
    → is_temporary
        (if not error
          then failed_with "unknown" prose
          else if not shape
          then failed_with "unknown" "ACP AIR category or actions are unknown"
          else failed_with
              (if unlisted
                then "unknown"
                else if limit && retry
                then "throttled"
                else if service && retry
                then "transient"
                else "unknown")
              text).category
      ≡ true
    → (error && (limit || service) && retry ≡ true) × (unlisted ≡ false)
policy_table false shape unlisted limit service retry prose text h = cc
policy_table true false unlisted limit service retry prose text h = cc
policy_table true true true limit service retry prose text h = cc
policy_table true true false true service true prose text h = (refl, refl)
policy_table true true false true true false prose text h = cc
policy_table true true false true false false prose text h = cc
policy_table true true false false true true prose text h = (refl, refl)
policy_table true true false false true false prose text h = cc
policy_table true true false false false retry prose text h = cc

pub all_listed :
    (vs : List Json)
    → any (λ v. not (is_listed_action v)) vs ≡ false
    → all is_listed_action vs ≡ true
unfolding any all
all_listed [] h = refl
all_listed (v ∷ vs) h = elim (Bool-cases (is_listed_action v)) [
  | inl a ↦
      let rest : any (λ v. not (is_listed_action v)) vs ≡ false = ground (arith, a, h) in
      rw a (all_listed vs rest)
  | inr a ↦ absurd (ground (arith, a, h))
]

pub record_retry :
    (host : Platform) (fs : Fields)
    → is_temporary (assess_air_record host (dict fs)).category ≡ true
    → is_retry_record (dict fs) ≡ true
record_retry host fs h =
    let actions = listed (get "actions" fs) in
    let (tests, unlisted) =
      policy_table (is_str "error" (get "severity" fs)) (is_known_shape fs)
        (any (λ v. not (is_listed_action v)) actions) (is_str "limit" (get "category" fs))
        (is_str "service" (get "category" fs)) (any (is_str "retry") actions)
        "ACP active session failure is not an eligible error" (air_text host fs) h in
    join_tests (is_str "error" (get "severity" fs))
      (is_str "limit" (get "category" fs) || is_str "service" (get "category" fs))
      (any (is_str "retry") actions) (all is_listed_action actions) tests
      (all_listed actions unlisted)

pub single_retry :
    (host : Platform) (vs : List Json)
    → is_temporary (assess_single host vs).category ≡ true
    → (elim vs [ [] ↦ false | v ∷ ws ↦ null ws && is_retry_record v ]) ≡ true
single_retry host [] h = cc
single_retry host (v ∷ w ∷ vs) h = cc
single_retry host (dict fs ∷ []) h = record_retry host fs h
single_retry host (v ∷ []) h = cc
