-- ===== src/Broker/Parsed.antt =====
-- bin/control_broker.py: reading the request and the allowlist passes or refuses.
use hermes_agent_workforce_p.Prelude.{
  arith, ◌≡◌, refl, String, Bool, true, false, Option, none, some, List, [], ◌∷◌,
}
use hermes_agent_workforce_p.Prelude.Dict.{Dict}
use hermes_agent_workforce_p.Broker.{
  Json, as_object, as_array, get, is_one, Answer, value, raised, refusal, command_failed, escaped,
  demand, demand_some, allowlist_invalid, bad_request, ◌>>=◌,
}
use hermes_agent_workforce_p.Broker.Allowlist.{
  Allowlist, Workflow, check_entry, check_runtime_entry, check_instance_entry, check_table,
  table_of, with_tables, allowed_verbs, load_data, load, lookup_entry,
}
use hermes_agent_workforce_p.Broker.Machine.{Systemd}
use hermes_agent_workforce_p.Broker.Request.{validate_request, shapes, fields}
use hermes_agent_workforce_p.Broker.Receipts.{Actor}
use hermes_agent_workforce_p.Broker.Target.{Incoming, rejected, body, target, parsed, peer_checked}
use hermes_agent_workforce_p.Broker.Refuses.{Refuses, Refuses-value, Refuses-refusal}

-- An answer that is no exception but a refusal.
abbrev pub refuses {ℓ} : {A : Type ℓ} → Answer A → Bool
refuses (value a) = true
refuses (raised (refusal r)) = true
refuses (raised _) = false

pub refuses-Refuses : {A : Type 0} (a : Answer A) → refuses a ≡ true → Refuses a
refuses-Refuses (value a) h = Refuses-value a
refuses-Refuses {A} (raised (refusal r)) h = Refuses-refusal A r
refuses-Refuses (raised command_failed) h = absurd (apart h)
  where
    apart : false ≡ true → ⊥
    apart e = cc
refuses-Refuses (raised escaped) h = absurd (apart' h)
  where
    apart' : false ≡ true → ⊥
    apart' e = cc

refuses->>= :
    {A B : Type 0} (a : Answer A) (f : A → Answer B)
    → refuses a ≡ true
    → ((x : A) → refuses (f x) ≡ true)
    → refuses (a >>= f) ≡ true
refuses->>= (value x) f h k = k x
refuses->>= (raised e) f h k = ground (arith, h)

refuses-shapes : (d : Dict Json) → refuses (shapes d) ≡ true
refuses-shapes d = ground arith

refuses-fields : (d : Dict Json) → refuses (fields d) ≡ true
refuses-fields d = ground arith

refuses-validate_request : (j : Json) → refuses (validate_request j) ≡ true
unfolding validate_request
refuses-validate_request j =
    refuses->>= (demand_some (as_object j) bad_request) _ (ground arith)
      (λ d. refuses->>= (shapes d) _ (refuses-shapes d) (λ u. refuses-fields d))

refuses-check_entry : (id : String) (j : Json) → refuses (check_entry id j) ≡ true
unfolding check_entry
refuses-check_entry id j = ground arith

refuses-check_runtime_entry : (id : String) (j : Json) → refuses (check_runtime_entry id j) ≡ true
unfolding check_runtime_entry
refuses-check_runtime_entry id j = ground arith

refuses-check_instance_entry : (id : String) (j : Json) → refuses (check_instance_entry id j) ≡ true
unfolding check_instance_entry
refuses-check_instance_entry id j = ground arith

refuses-allowed_verbs : (j : Json) → refuses (allowed_verbs j) ≡ true
unfolding allowed_verbs
refuses-allowed_verbs j = ground arith

refuses-check_table :
    {A : Type 0} (check : String → Json → Answer A) (d : Dict Json)
    → ((id : String) (j : Json) → refuses (check id j) ≡ true)
    → refuses (check_table check d) ≡ true
refuses-check_table check [] h = refl
refuses-check_table check ((id, j) ∷ d) h =
    refuses->>= (check id j) _ (h id j)
      (λ a. refuses->>= (check_table check d) _ (refuses-check_table check d h) (λ b. refl))

refuses-table_of : (key : String) (d : Dict Json) → refuses (table_of key d) ≡ true
refuses-table_of key d = ground arith

refuses-with_tables :
    (d : Dict Json) (ex : List Json) (ws : Dict Workflow) → refuses (with_tables d ex ws) ≡ true
refuses-with_tables d ex ws = refuses->>= (table_of "runtimes" d) _ (refuses-table_of _ d) (λ rs.
    refuses->>= (check_table check_runtime_entry rs) _
      (refuses-check_table _ rs refuses-check_runtime_entry)
      (λ runtimes. refuses->>= (table_of "instances" d) _ (refuses-table_of _ d) (λ is.
        refuses->>= (check_table check_instance_entry is) _
          (refuses-check_table _ is refuses-check_instance_entry)
          (λ instances.
            refuses->>= (allowed_verbs (get "board" d)) _ (refuses-allowed_verbs _)
              (λ verbs. refl)))))

refuses-load_data : (j : Json) → refuses (load_data j) ≡ true
unfolding load_data
refuses-load_data j =
    refuses->>= (demand_some (as_object j) allowlist_invalid) _ (ground arith) (λ d.
      refuses->>= (demand (is_one (get "schema" d)) allowlist_invalid) _ (ground arith) (λ u.
        refuses->>= (demand_some (as_object (get "workflows" d)) allowlist_invalid) _ (ground arith)
          (λ rows.
            refuses->>= (demand_some (as_array (get "excluded" d)) allowlist_invalid) _
              (ground arith)
              (λ ex.
                refuses->>= (check_table check_entry rows) _
                  (refuses-check_table _ rows refuses-check_entry)
                  (λ ws. refuses-with_tables d ex ws)))))

refuses-load : (file : Option Json) → refuses (load file) ≡ true
unfolding load
refuses-load none = refl
refuses-load (some j) = refuses-load_data j

refuses-lookup_entry : (id : String) (list : Allowlist) → refuses (lookup_entry id list) ≡ true
unfolding lookup_entry
refuses-lookup_entry id list = ground arith

module _ {E : Type 0} (sys : Systemd E) where
  refuses-parsed : (incoming : Incoming) → refuses (parsed sys incoming) ≡ true
  refuses-parsed (rejected c) = refl
  refuses-parsed (body j) = refuses-validate_request j

  refuses-peer_checked : (actor : Actor) → refuses (peer_checked sys actor) ≡ true
  refuses-peer_checked actor = ground arith

  refuses-target :
      (actor : Actor) (file : Option Json) (incoming : Incoming)
      → refuses (target sys actor file incoming) ≡ true
  unfolding target
  refuses-target actor file incoming =
      refuses->>= (parsed sys incoming) _ (refuses-parsed incoming) (λ r.
        refuses->>= (peer_checked sys actor) _ (refuses-peer_checked actor) (λ u.
          refuses->>= (load file) _ (refuses-load file) (λ list.
            refuses->>= (lookup_entry r.workflow_id list) _
              (refuses-lookup_entry r.workflow_id list) (λ entry. refl))))

  -- The way to an entry ends in one, or in a refusal.
  pub target-Refuses :
      (actor : Actor) (file : Option Json) (incoming : Incoming)
      → Refuses (target sys actor file incoming)
  target-Refuses actor file incoming = refuses-Refuses _ (refuses-target actor file incoming)
