-- ===== src/Broker/Previewed.antt =====
-- bin/control_broker.py, `_check_preview_token`: the receipt that a token names.
use hermes_agent_workforce_p.Prelude.{
  ℕ, ◌+◌, ◌≤◌, arith, ◌≡◌, refl, subst, String, true, ◌&&◌, Option, none, some, List, [], ◌∷◌,
  str_eq, In, Bool-cases, inl, inr, opt_eq, truthy, or_else,
}
use hermes_agent_workforce_p.Stamp.{parse_time}
use hermes_agent_workforce_p.Broker.{
  value, value_before, demand, demand-value, demand_some, Code, preview_required, preview_stale,
}
use hermes_agent_workforce_p.Ledger.Order.{opt_eq→eq}
use hermes_agent_workforce_p.Broker.Names.{is_token}
use hermes_agent_workforce_p.Broker.Machine.{Snapshot, Outcome, previewed}
use hermes_agent_workforce_p.Broker.Request.{Request}
use hermes_agent_workforce_p.Broker.Receipts.{
  Receipt, load_preview_receipt, find_receipt, if_valid, is_in, is_previewed, is_clean,
  validate_receipt,
}
use hermes_agent_workforce_p.Broker.Checks.{
  check_preview_token, preview_of, is_resume_of, is_fresh, fingerprint_of,
}

pub value-eq : {A : Type 0} (a b : A) → value a ≡ value b → a ≡ b
value-eq a b h = cc

-- A receipt of a preview of this workflow's resume, written at most ten minutes ago.
pub record Previewed (receipts : List Receipt) (now : ℕ) (r : Request) (p : Receipt) : Type 0 where
  pub kept : In p receipts
  pub shown : p.result ≡ some previewed
  pub about : p.workflow_id ≡ some r.workflow_id
  pub completed : ℕ
  pub at : parse_time p.completed_at ≡ some completed
  pub recent : now ≤ completed + 600

find_receipt-In :
    (id token : String) (rs : List Receipt) (p : Receipt)
    → find_receipt id token rs ≡ some p
    → In p rs
find_receipt-In id token [] p h = cc
find_receipt-In id token (q ∷ rs) p h =
    elim (Bool-cases (is_in id q.workflow_id && str_eq q.receipt_id token)) [
      | inl e ↦ inl (ground (arith, h, e))
      | inr e ↦ inr (find_receipt-In id token rs p (rw e at h))
    ]

if_valid-some : (o : Option Receipt) (p : Receipt) → if_valid o ≡ some p → o ≡ some p
if_valid-some none p h = cc
if_valid-some (some q) p h = elim (Bool-cases (is_clean (validate_receipt q))) [
  | inl e ↦ rw e at h
  | inr e ↦ absurd (none_is (rw e at h))
]
  where
    none_is : none ≡ some p → ⊥
    none_is x = cc

preview_of-In :
    (receipts : List Receipt) (r : Request) (p : Receipt)
    → preview_of receipts r ≡ some p
    → In p receipts
unfolding load_preview_receipt
preview_of-In receipts r p h =
    elim (Bool-cases (truthy r.preview_token && is_token (or_else r.preview_token ""))) [
      | inl e ↦
          find_receipt-In r.workflow_id (or_else r.preview_token "") receipts p
            (if_valid-some _ p (ground (arith, h, e)))
      | inr e ↦ ground (arith, h, e)
    ]

is_previewed→eq : (o : Option Outcome) → is_previewed o ≡ true → o ≡ some previewed
is_previewed→eq (some previewed) h = refl
is_previewed→eq o h = ground (arith, h)

is_resume_of-about :
    (id : String) (p : Receipt)
    → is_resume_of id p ≡ true
    → (p.result ≡ some previewed) × (p.workflow_id ≡ some id)
is_resume_of-about id p h = (
  is_previewed→eq p.result (ground (arith, h)),
  opt_eq→eq p.workflow_id (some id) (ground (arith, h)),
)

is_fresh-recent :
    (now : ℕ) (t : Option ℕ)
    → is_fresh now t ≡ true
    → (completed : ℕ) × (t ≡ some completed) × (now ≤ completed + 600)
is_fresh-recent now none h = cc
is_fresh-recent now (some c) h = (c, refl, ground (arith, h))

demand_some-value :
    {A : Type 0} (o : Option A) (c : Code) (a : A) → demand_some o c ≡ value a → o ≡ some a
demand_some-value none c a h = cc
demand_some-value (some b) c a h = cc

-- A token that passes names a preview of this workflow, kept and recent.
pub check_preview_token-Previewed :
    (receipts : List Receipt) (r : Request) (before : Snapshot) (now : ℕ) (p : Receipt)
    → check_preview_token receipts r before now ≡ value p
    → Previewed receipts now r p
unfolding check_preview_token
check_preview_token-Previewed receipts r before now p h =
    let (q, a, b) = value_before (demand_some (preview_of receipts r) preview_required) _ h in
    let (u, c, d) = value_before (demand (is_resume_of r.workflow_id q) preview_required) _ b in
    let (v, e, f) =
      value_before (demand (is_fresh now (parse_time q.completed_at)) preview_stale) _ d in
    let (w, g, i) =
      value_before
        (demand (opt_eq (fingerprint_of q.before) (some before.fingerprint)) preview_stale) _ f in
    let (shown, about) = is_resume_of-about r.workflow_id q (demand-value _ _ c) in
    let (completed, at, recent) = is_fresh-recent now _ (demand-value _ _ e) in
    subst (Previewed receipts now r) (value-eq q p i) (record {
      kept = preview_of-In receipts r q (demand_some-value _ _ q a);
      shown = shown;
      about = about;
      completed = completed;
      at = at;
      recent = recent;
    })
