-- ===== src/Authorization.antt =====
-- core/security/authorization.go: capabilities of nodes and the audit of their use.
use node_decent_system.Prelude.{
  ℕ, ◌≡◌, refl, ap, ◌∙◌, Bool, true, false, Bool-cases, Option, none, some, Option-cases, inl, inr,
  List, [], ◌∷◌, ◌++◌, arith, if◌then◌else◌, Bytes, str_eq, str_eq_iff,
}
use node_decent_system.GoMap.{GoMap, get-put, get-put_self}
use node_decent_system.GoMap

-- A time is the number of milliseconds the clock shows.
pub record AuditLogEntry : Type 0 where
  pub timestamp : ℕ
  pub node_id : Bytes
  pub capability : Bytes
  pub action : Bytes
  pub allowed : Bool

pub record AuthorizationEngine : Type 0 where
  pub capabilities : GoMap (GoMap Bool)
  pub audit_logs : List AuditLogEntry

unfoldable pub new_authorization_engine : AuthorizationEngine
new_authorization_engine = record { capabilities = []; audit_logs = [] }

-- A nil or missing inner map reads as the empty one.
caps_or_empty : Option (GoMap Bool) → GoMap Bool
caps_or_empty none = []
caps_or_empty (some caps) = caps

bool_at : Option Bool → Bool
bool_at none = false
bool_at (some b) = b

unfoldable pub grant_capability : AuthorizationEngine → Bytes → Bytes → AuthorizationEngine
unfolding caps_or_empty
grant_capability ae node cap = record ae {
  capabilities =
      GoMap.put ae.capabilities node
        (GoMap.put (caps_or_empty (GoMap.get ae.capabilities node)) cap true);
}

-- The Boolean that `Authorize` looks up.
allowed_by : Option (GoMap Bool) → Bytes → Bool
unfolding bool_at
allowed_by none cap = false
allowed_by (some caps) cap = bool_at (GoMap.get caps cap)

unfoldable pub authorize :
    AuthorizationEngine → ℕ → Bytes → Bytes → Bytes → AuthorizationEngine × Bool
unfolding allowed_by
authorize ae now node cap act =
    let ok_now = allowed_by (GoMap.get ae.capabilities node) cap in
    (
      record ae {
        audit_logs =
            ae.audit_logs
            ++ record {
              timestamp = now;
              node_id = node;
              capability = cap;
              action = act;
              allowed = ok_now;
            }
              ∷ [];
      },
      ok_now,
    )

unfoldable pub get_audit_logs : AuthorizationEngine → List AuditLogEntry
get_audit_logs ae = ae.audit_logs

-- The calls of the engine's clients.
pub data Request : Type 0 where
  grant : Bytes → Bytes → Request
  ask : ℕ → Bytes → Bytes → Bytes → Request

unfoldable pub serve : AuthorizationEngine → Request → AuthorizationEngine
serve ae (grant node cap) = grant_capability ae node cap
serve ae (ask now node cap act) = (authorize ae now node cap act).0

unfoldable pub serve_all : AuthorizationEngine → List Request → AuthorizationEngine
serve_all ae [] = ae
serve_all ae (r ∷ rs) = serve_all (serve ae r) rs

-- Whether a capability is granted to a node in a list of requests.
unfoldable pub granted : List Request → Bytes → Bytes → Bool
granted [] node cap = false
granted (grant n c ∷ rs) node cap =
    let rest = granted rs node cap in
    if str_eq n node then (if str_eq c cap then true else rest) else rest
granted (ask now n c act ∷ rs) node cap = granted rs node cap

-- What the engine answers, as a function of its table alone.
unfoldable answer : GoMap (GoMap Bool) → Bytes → Bytes → Bool
unfolding allowed_by
answer table node cap = allowed_by (GoMap.get table node) cap

put-bool_at :
    (caps : GoMap Bool) (c cap : Bytes)
    → bool_at (GoMap.get (GoMap.put caps c true) cap)
      ≡ (if str_eq c cap then true else bool_at (GoMap.get caps cap))
unfolding bool_at
put-bool_at caps c cap = elim (Bool-cases (str_eq c cap)) [
  | inl h ↦ rw (get-put caps c cap true, h) refl
  | inr h ↦ rw (get-put caps c cap true, h) refl
]

caps-answer :
    (table : GoMap (GoMap Bool)) (node cap : Bytes)
    → bool_at (GoMap.get (caps_or_empty (GoMap.get table node)) cap) ≡ answer table node cap
unfolding caps_or_empty answer allowed_by
caps-answer table node cap = elim (Option-cases (GoMap.get table node)) [
  | inl h ↦ rw h (unfold GoMap.get bool_at in refl)
  | inr (caps, h) ↦ rw h refl
]

answer-grant :
    (ae : AuthorizationEngine) (n c node cap : Bytes)
    → answer (grant_capability ae n c).capabilities node cap ≡ (
        if str_eq n node
        then (if str_eq c cap then true else answer ae.capabilities node cap)
        else answer ae.capabilities node cap)
unfolding grant_capability answer
answer-grant ae n c node cap = elim (Bool-cases (str_eq n node)) [
  | inl h ↦
      rw
        (
          get-put ae.capabilities n node
              (GoMap.put (caps_or_empty (GoMap.get ae.capabilities n)) c true),
          h,
        )
        (unfold allowed_by in
          put-bool_at (caps_or_empty (GoMap.get ae.capabilities n)) c cap
          ∙ ap (λ b. if str_eq c cap then true else b)
              (caps-answer ae.capabilities n cap
                ∙ ap (λ m. answer ae.capabilities m cap) ((str_eq_iff n node).0 h)))
  | inr h ↦
      rw
        (
          get-put ae.capabilities n node
              (GoMap.put (caps_or_empty (GoMap.get ae.capabilities n)) c true),
          h,
        )
        refl
]

answer-serve_all :
    (ae : AuthorizationEngine) (rs : List Request) (node cap : Bytes)
    → answer (serve_all ae rs).capabilities node cap
      ≡ (if granted rs node cap then true else answer ae.capabilities node cap)
unfolding serve_all serve granted authorize
answer-serve_all ae [] node cap = refl
answer-serve_all ae (grant n c ∷ rs) node cap =
    ground
      (arith, answer-serve_all (grant_capability ae n c) rs node cap, answer-grant ae n c node cap)
answer-serve_all ae (ask now n c act ∷ rs) node cap =
    answer-serve_all ((authorize ae now n c act).0) rs node cap

-- Whatever is granted to and asked of a new engine, it then allows a capability to a node exactly
-- when that capability was granted to that node; the answer is the last entry of its audit log.
pub authorize_iff_granted :
    (rs : List Request) (now : ℕ) (node cap act : Bytes)
    → let ae = serve_all new_authorization_engine rs in
      ((authorize ae now node cap act).1 ≡ granted rs node cap)
      × (get_audit_logs (authorize ae now node cap act).0
          ≡ get_audit_logs ae
            ++ record {
              timestamp = now;
              node_id = node;
              capability = cap;
              action = act;
              allowed = granted rs node cap;
            }
              ∷ [])
unfolding authorize get_audit_logs answer
authorize_iff_granted rs now node cap act =
    let known : answer (serve_all new_authorization_engine rs).capabilities node cap
        ≡ granted rs node cap =
      answer-serve_all new_authorization_engine rs node cap
      ∙ if_false (granted rs node cap) node cap in
    (
      known,
      ap
          (λ b.
            (serve_all new_authorization_engine rs).audit_logs
            ++ record {
              timestamp = now;
              node_id = node;
              capability = cap;
              action = act;
              allowed = b;
            }
              ∷ [])
          known,
    )
  where
    if_false :
        (b : Bool) (n c : Bytes)
        → (if b then true else answer new_authorization_engine.capabilities n c) ≡ b
    if_false true n c = refl
    if_false false n c = unfold new_authorization_engine answer GoMap.get allowed_by in refl
