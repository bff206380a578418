-- ===== src/Broker/Stream.antt =====
-- bin/control_broker.py, `handle_board`: what the stream of decisions grows by.
use hermes_agent_workforce_p.Prelude.{
  arith, ◌≡◌, ◌≢◌, refl, sym, ap, ◌∙◌, subst, String, Bool, true, false, not, ◌||◌, ◌&&◌, Option,
  none, some, List, [], ◌∷◌, ◌++◌, ◌⊎◌, inl, inr, has, str_eq, str_eq→eq, strip, all,
}
use hermes_agent_workforce_p.Prelude.Dict.{Dict, keys}
use hermes_agent_workforce_p.Stamp.{iso_utc}
use hermes_agent_workforce_p.Broker.{
  Json, Answer, value, raised, refusal, command_failed, escaped, value_before, demand, demand-value,
  demand_some, get, is_null, as_string,
}
use hermes_agent_workforce_p.Broker.Names.{is_card_name, is_hash}
use hermes_agent_workforce_p.Broker.Allowlist.{Allowlist, load, board_verbs}
use hermes_agent_workforce_p.Broker.Request.{peer_allowed, is_version, among}
use hermes_agent_workforce_p.Broker.Receipts.{Actor, screen}
use hermes_agent_workforce_p.Broker.Decide.{
  Decided, Signed, Signer, applied, failed, Answered, decided, handle_board, takes_brief,
  takes_page, needs_reason, may_reason, page_text_hash, agrees, hash_field, reason_field,
  text_field, field_if, absent_unless, checked_fields, validate_board_request, board_request_keys,
  answered, board_string, peer_checked, signed, appended, row_of,
}
use hermes_agent_workforce_p.Broker.Previewed.{value-eq}
use hermes_agent_workforce_p.Broker.Untouched.{some-eq}

-- A decision that the broker may sign: of a card's name, with the hash of the brief, the page and
-- its hash, or the reason that its verb needs.
pub record Proper (sha256 : String → String) (d : Decided) : Type 0 where
  pub known : has d.decision board_verbs ≡ true
  pub named : is_card_name d.card ≡ true
  pub briefed :
      takes_brief d.decision ≡ true → (h : String) × (d.brief_hash ≡ some h) × (is_hash h ≡ true)
  pub paged :
      takes_page d.decision ≡ true
      → (t : String) × (d.text ≡ some t) × (d.page_hash ≡ some (page_text_hash sha256 t))
  pub reasoned :
      needs_reason d.decision ≡ true
      → (s : String) × (d.reason ≡ some s) × (str_eq (strip s) "" ≡ false)

hash_field-some :
    (d : Dict Json) (key : String) (o : Option String)
    → hash_field d key ≡ value o
    → (h : String) × (o ≡ some h) × (is_hash h ≡ true)
hash_field-some d key o h =
    let (s, a, b) = value_before (board_string d key 64) _ h in
    let (u, c, e) = value_before (demand (is_hash s) _) _ b in
    (s, sym (value-eq _ _ e), demand-value _ _ c)

reason_field-some :
    (d : Dict Json) (o : Option String)
    → reason_field d ≡ value o
    → (s : String) × (o ≡ some s) × (str_eq (strip s) "" ≡ false)
reason_field-some d o h =
    let (s, a, b) = value_before (board_string d "reason" 2000) _ h in
    let (u, c, e) = value_before (demand (not (str_eq (strip s) "")) _) _ b in
    (s, sym (value-eq _ _ e), not-true _ (demand-value _ _ c))
  where
    not-true : (b : Bool) → not b ≡ true → b ≡ false
    not-true true x = cc
    not-true false x = refl

text_field-some :
    (d : Dict Json) (o : Option String) → text_field d ≡ value o → (t : String) × (o ≡ some t)
text_field-some d o h =
    let (s, a, b) = value_before (board_string d "text" 262144) _ h in (s, sym (value-eq _ _ b))

-- The field that a verb takes.
taken :
    (b : Bool) (a : Answer (Option String)) (o : Option String)
    → field_if b a ≡ value o
    → b ≡ true
    → a ≡ value o
taken true a o h e = h
taken false a o h e = cc

agrees-hash :
    (sha256 : String → String) (text hash : Option String) (t : String)
    → text ≡ some t
    → agrees sha256 text hash ≡ true
    → hash ≡ some (page_text_hash sha256 t)
agrees-hash sha256 (some s) (some h) t e a =
    ap some (sym (str_eq→eq _ _ a) ∙ ap (page_text_hash sha256) (some-eq s t e))
agrees-hash sha256 none (some h) t e a = cc
agrees-hash sha256 text none t e a = ground (arith, e, a)

checked_fields-Proper :
    (sha256 : String → String) (d : Dict Json) (verb card : String) (x : Decided)
    → has verb board_verbs ≡ true
    → is_card_name card ≡ true
    → checked_fields sha256 d verb card ≡ value x
    → Proper sha256 x
checked_fields-Proper sha256 d verb card x k n h =
    let (u, a, b) =
      value_before
        (demand
          (absent_unless (takes_brief verb) "brief_hash" d
            && absent_unless (takes_page verb) "page_hash" d
            && absent_unless (takes_page verb) "text" d
            && absent_unless (may_reason verb) "reason" d)
          _)
        _ h in
    let (brief, c, e) =
      value_before (field_if (takes_brief verb) (hash_field d "brief_hash")) _ b in
    let (page, f, g) = value_before (field_if (takes_page verb) (hash_field d "page_hash")) _ e in
    let (text, i, j) = value_before (field_if (takes_page verb) (text_field d)) _ g in
    let (reason, l, m) =
      value_before
        (field_if (needs_reason verb || (may_reason verb && not (is_null (get "reason" d))))
          (reason_field d))
        _ j in
    let (v, o, p) = value_before (demand (agrees sha256 text page) _) _ m in
    subst (Proper sha256) (value-eq _ x p) (record {
      known = k;
      named = n;
      briefed = λ t. hash_field-some d "brief_hash" brief (taken _ _ _ c t);
      paged = λ t.
          let (s, q) = text_field-some d text (taken _ _ _ i t) in
          (s, q, agrees-hash sha256 text page s q (demand-value _ _ o));
      reasoned = λ t. reason_field-some d reason (taken _ _ _ l (either t));
    })
  where
    either :
        needs_reason verb ≡ true
        → (needs_reason verb || (may_reason verb && not (is_null (get "reason" d)))) ≡ true
    either t = ground (arith, t)

validate_board_request-Proper :
    (sha256 : String → String) (d : Dict Json) (x : Decided)
    → validate_board_request sha256 d ≡ value x
    → Proper sha256 x
unfolding validate_board_request
validate_board_request-Proper sha256 d x h =
    let (a, a', b) = value_before (demand (all (among board_request_keys) (keys d)) _) _ h in
    let (c, c', e) = value_before (demand (is_version d) _) _ b in
    let (verb, f', g) = value_before (demand_some (as_string (get "board_verb" d)) _) _ e in
    let (i, i', j) = value_before (demand (has verb board_verbs) _) _ g in
    let (card, l', m) = value_before (demand_some (as_string (get "card" d)) _) _ j in
    let (o, o', p) = value_before (demand (is_card_name card) _) _ m in
    checked_fields-Proper sha256 d verb card x (demand-value _ _ i') (demand-value _ _ o') p

module _ {E : Type 0} (sys : Signer E) where
  -- Why the broker took a decision: it is proper, the allowlist has its verb, and the peer may act.
  pub record Taken (file : Option Json) (actor : Actor) (d : Decided) : Type 0 where
    pub proper : Proper sys.sha256 d
    pub peer : actor.kind ≡ screen → peer_allowed sys.is_loopback actor.remote actor.local ≡ true
    pub allowlist : Allowlist
    pub read : load file ≡ value allowlist
    pub listed : has d.decision allowlist.board_verbs ≡ true

  peer_checked-allowed :
      (actor : Actor) {u : Unit {0}}
      → peer_checked sys actor ≡ value u
      → actor.kind ≡ screen
      → peer_allowed sys.is_loopback actor.remote actor.local ≡ true
  peer_checked-allowed actor h k = ground (arith, h, k)

  decided-Taken :
      (file : Option Json) (actor : Actor) (d : Dict Json) (x : Decided)
      → decided sys file actor d ≡ value x
      → Taken file actor x
  unfolding decided
  decided-Taken file actor d x h =
      let (u, p, a) = value_before (peer_checked sys actor) _ h in
      let (y, v, b) = value_before (validate_board_request sys.sha256 d) _ a in
      let (list, l, c) = value_before (load file) _ b in
      let (w, t, e) = value_before (demand (has y.decision list.board_verbs) _) _ c in
      subst (Taken file actor) (value-eq y x e) (record {
        proper = validate_board_request-Proper sys.sha256 d y v;
        peer = peer_checked-allowed actor p;
        allowlist = list;
        read = l;
        listed = demand-value _ _ t;
      })

  -- What an answer has done to the stream: an applied decision is signed and is its new last line;
  -- without one the stream is as it was.
  abbrev pub Grown : Option Json → List Signed → Actor → E → Answered sys → Type 0
  Grown file stream actor e a =
      ((a.stream ≡ stream) × ((row : Signed) → a.response ≢ applied row))
      ⊎ ((row : Signed) × (a.response ≡ applied row)
          × (a.stream ≡ (stream ++ (row ∷ [])))
          × Taken file actor row.decided
          × (row.ts ≡ iso_utc (sys.now e))
          × ((sig : String) × (t : E) × (t' : E) × (row.sig ≡ some sig)
              × (sys.sign (record row { sig = none }) t ≡ (some sig, t'))))

  failed-Grown :
      (file : Option Json) (stream : List Signed) (actor : Actor) (e t : E)
      → Grown file stream actor e (record { response = failed; stream = stream; machine = t })
  failed-Grown file stream actor e t = inl (refl, λ row h. cc)

  appended-Grown :
      (file : Option Json) (stream : List Signed) (actor : Actor) (e : E) (d : Decided)
      (hex sig : String) (t t' : E) (x : Bool × E)
      → Taken file actor d
      → sys.sign (row_of sys actor d (sys.now e) hex) t ≡ (some sig, t')
      → Grown file stream actor e
          (appended sys stream (record (row_of sys actor d (sys.now e) hex) { sig = some sig }) x)
  appended-Grown file stream actor e d hex sig t t' (true, u) k s =
      inr (_, refl, refl, k, refl, (sig, t, t', refl, s))
  appended-Grown file stream actor e d hex sig t t' (false, u) k s =
      failed-Grown file stream actor e u

  signed-Grown :
      (file : Option Json) (stream : List Signed) (actor : Actor) (e : E) (d : Decided)
      (hex : String) (t : E) (x : Option String × E)
      → Taken file actor d
      → sys.sign (row_of sys actor d (sys.now e) hex) t ≡ x
      → Grown file stream actor e (signed sys stream (row_of sys actor d (sys.now e) hex) x)
  signed-Grown file stream actor e d hex t (none, u) k s = failed-Grown file stream actor e u
  signed-Grown file stream actor e d hex t (some sig, u) k s =
      appended-Grown file stream actor e d hex sig t u _ k s

  answered-Grown :
      (file : Option Json) (stream : List Signed) (actor : Actor) (d : Dict Json) (e : E)
      (x : Answer Decided)
      → decided sys file actor d ≡ x
      → Grown file stream actor e (answered sys stream actor e x)
  answered-Grown file stream actor d e (value y) h =
      signed-Grown file stream actor e y (sys.token_hex e).0 (sys.token_hex e).1 _
        (decided-Taken file actor d y h) refl
  answered-Grown file stream actor d e (raised (refusal r)) h = inl (refl, λ row q. cc)
  answered-Grown file stream actor d e (raised command_failed) h =
      failed-Grown file stream actor e e
  answered-Grown file stream actor d e (raised escaped) h = failed-Grown file stream actor e e

  -- The stream of decisions only grows, one signed line for each decision that the broker applies,
  -- and by nothing else: a request that is refused or fails leaves it as it was. The line that an
  -- applied one adds is of a verb that the allowlist lists, for a card's name, with the brief's hash,
  -- the page's text and its very hash, or the reason that the verb needs, from a peer that may act,
  -- stamped with the clock, and carries the signature of the record without one.
  pub handle_board-Grown :
      (file : Option Json) (stream : List Signed) (actor : Actor) (d : Dict Json) (e : E)
      → Grown file stream actor e (handle_board sys file stream actor d e)
  unfolding handle_board
  handle_board-Grown file stream actor d e =
      answered-Grown file stream actor d e (decided sys file actor d) refl
