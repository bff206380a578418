-- ===== src/Board/Append.antt =====
-- bin/board.py: the ledgers are append-only, over any sequence of the verbs that write them.
use hermes_agent_workforce_p.Prelude.{
  ℕ, ◌≡◌, refl, sym, ap, subst, ◌∙◌, String, Bool, true, false, Option, none, some, List, [], ◌∷◌,
  ◌++◌, append-nil, append_assoc, inl, inr, ◌⊎◌, arith, ◌==◌, ◌&&◌, not, any, all, has, length,
  Bool-cases, if◌then◌else◌, str_eq, str_eq→eq, opt_eq,
}
use hermes_agent_workforce_p.Prelude.Dict.{Dict, lookup, insert, lookup-insert}
use hermes_agent_workforce_p.Ledger.{
  Event, EventKind, edited, held, note, Value, Change, plain, text, get,
}
use hermes_agent_workforce_p.Ledger.Flow.{blocked}
use hermes_agent_workforce_p.Ledger.Derive.{CardView, Wanted, is_column}
use hermes_agent_workforce_p.Board.{
  Folder, Board, World, not_a_reason, not_a_note_kind, may_not_note, no_such_card, stale_revision,
  wrong_column, returned_text, unchanged_brief, locked_field, nothing_changed, not_editable,
  dates_disagree, unreadable, ok, found, require, fresh_view, append_event, put_folder, ok_before,
}
use hermes_agent_workforce_p.Board.Actor.{require_actor, is_reason_code, name}
use hermes_agent_workforce_p.Board.Write.{
  hold_card, save_hold, add_note, add_brief, new_brief, record_brief, is_hold, is_kind_of_note,
  may_note, note_fields, anyone, run_of_actor, brief_columns, was_returned, earlier_brief,
  or_earlier, is_revision,
}
use hermes_agent_workforce_p.Board.Texts.{normalise, text_hash, checked_text}
use hermes_agent_workforce_p.Board.Edit.{
  edit_card, save_edit, is_locked, diff_of, update_values, dates_agree, fields_of, change_rows,
}
use hermes_agent_workforce_p.Board.Pick.{pick_card, take_card}
use hermes_agent_workforce_p.Board.Again.{HadBefore}
use hermes_agent_workforce_p.Board.Runs.{Taken, pick_card-Taken, found-some, ok_injective}

-- The folder after has the same card, and a row more.
abbrev pub HasRow : Folder → Folder → Type 0
HasRow f g = (g.card ≡ f.card) × ((e : Event) × (g.events ≡ f.events ++ (e ∷ [])))

-- A step that changes nothing, or appends a row to the ledger of one card.
abbrev pub Writes : Board → Board → Type 0
Writes b b' =
    (b' ≡ b)
    ⊎ ((id : String) × (f : Folder) × (g : Folder) × (lookup id b.cards ≡ some f)
        × HasRow f g
        × (b' ≡ put_folder id g b))

append_event-HasRow :
    (w : World) (event : EventKind) (actor : String) (run_id workflow hash : Option String)
    (fields : Dict Change) (f : Folder)
    → HasRow f (append_event w event actor run_id workflow hash fields f)
unfolding append_event
append_event-HasRow w event actor run_id workflow hash fields f = (refl, (_, refl))

save_hold-Writes :
    (w : World) (id reason actor : String) (view : CardView) (f : Folder) (b : Board)
    → lookup id b.cards ≡ some f
    → Writes b (save_hold w id reason actor view f b).1
unfolding save_hold
save_hold-Writes w id reason actor view f b h =
    either (is_column blocked view.column && is_hold view.blocked_cause)
      (put_folder id
        (append_event w held actor none none none (("reason", plain (text reason)) ∷ []) f) b)
      (inr (
        id,
        f,
        _,
        h,
        append_event-HasRow w held actor none none none (("reason", plain (text reason)) ∷ []) f,
        refl,
      ))
  where
    either :
        (t : Bool) (b' : Board)
        → Writes b b'
        → Writes b (if◌then◌else◌ {A = Bool × Board} t (false, b) (true, b')).1
    either true b' d = inl refl
    either false b' d = d

hold_card-Writes :
    (w : World) (id reason actor : String) (b : Board) (r : Bool × Board)
    → hold_card w id reason actor b ≡ ok r
    → Writes b r.1
unfolding hold_card
hold_card-Writes w id reason actor b r h =
    let (u, a, h1) = ok_before (require_actor actor (name "reactor" ∷ [])) _ h in
    let (v, c, h2) = ok_before (require (is_reason_code reason) not_a_reason) _ h1 in
    let (f, at_id, h3) = ok_before (found (lookup id b.cards) no_such_card) _ h2 in
    let (view, fresh, h4) = ok_before (fresh_view w f) _ h3 in
    subst (λ q. Writes b q.1) (ok_injective h4)
      (save_hold-Writes w id reason actor view f b
        (found-some (lookup id b.cards) no_such_card at_id))

add_note-Writes :
    (w : World) (id body actor : String) (kind : Option String) (b b' : Board)
    → add_note w id body actor kind b ≡ ok b'
    → Writes b b'
unfolding add_note
add_note-Writes w id body actor kind b b' h =
    let (u, a, h1) = ok_before (require_actor actor anyone) _ h in
    let (k, c, h2) = ok_before (require (is_kind_of_note kind) not_a_note_kind) _ h1 in
    let (m, d, h3) = ok_before (require (may_note actor kind) may_not_note) _ h2 in
    let (s, t, h4) = ok_before (checked_text body) _ h3 in
    let (f, at_id, h5) = ok_before (found (lookup id b.cards) no_such_card) _ h4 in
    let fields = note_fields (normalise s) kind in
    inr (
      id,
      f,
      append_event w note actor (run_of_actor actor) none none fields f,
      found-some (lookup id b.cards) no_such_card at_id,
      append_event-HasRow w note actor (run_of_actor actor) none none fields f,
      sym (ok_injective h5),
    )

record_brief-HasRow :
    (w : World) (body actor : String) (run_id : Option String) (f : Folder)
    → HasRow f (record_brief w body actor run_id f)
unfolding record_brief append_event
record_brief-HasRow w body actor run_id f = (refl, (_, refl))

new_brief-Writes :
    (w : World) (id body actor : String) (view : CardView) (f : Folder) (b : Board)
    (r : Option String × Board)
    → lookup id b.cards ≡ some f
    → new_brief w id body actor view f b ≡ ok r
    → Writes b r.1
unfolding new_brief
new_brief-Writes w id body actor view f b r at_id h =
    let (c, d, h1) = ok_before (require (brief_columns actor view.column) wrong_column) _ h in
    let (e, g, h2) =
      ok_before (require (not (was_returned id (text_hash w body) w.decisions)) returned_text) _
        h1 in
    let (i, j, h3) =
      ok_before (require (not (opt_eq (some (text_hash w body)) view.brief_hash)) unchanged_brief) _
        h2 in
    inr (
      id,
      f,
      record_brief w body actor (run_of_actor actor) f,
      at_id,
      record_brief-HasRow w body actor (run_of_actor actor) f,
      sym (ap (λ q. q.1) (ok_injective h3)),
    )

add_brief-Writes :
    (w : World) (id body actor : String) (rev : Option ℕ) (b : Board) (r : Option String × Board)
    → add_brief w id body actor rev b ≡ ok r
    → Writes b r.1
unfolding add_brief
add_brief-Writes w id body actor rev b r h =
    let (u, a, h1) = ok_before (require_actor actor anyone) _ h in
    let (s, t, h2) = ok_before (checked_text body) _ h1 in
    let (f, at_id, h3) = ok_before (found (lookup id b.cards) no_such_card) _ h2 in
    let (view, fresh, h4) = ok_before (fresh_view w f) _ h3 in
    let (v, c, h5) = ok_before (require (is_revision rev (length f.events)) stale_revision) _ h4 in
    again s view f (found-some (lookup id b.cards) no_such_card at_id)
      (earlier_brief (run_of_actor actor) f.events) h5
  where
    again :
        (s : String) (view : CardView) (f : Folder)
        → lookup id b.cards ≡ some f
        → (e : Option Event) → or_earlier e b (new_brief w id s actor view f b) ≡ ok r
        → Writes b r.1
    again s view f at_id none h = new_brief-Writes w id s actor view f b r at_id h
    again s view f at_id (some e) h = inl (sym (ap (λ q. q.1) (ok_injective h)))

save_edit-Writes :
    (w : World) (id actor : String) (view : CardView) (diff : Dict Value) (f : Folder) (b : Board)
    (r : List String × Board)
    → lookup id b.cards ≡ some f
    → save_edit w id actor view diff f b ≡ ok r
    → Writes b r.1
unfolding save_edit
save_edit-Writes w id actor view diff f b r at_id h =
    let (n, c, h1) = ok_before (require (not (length diff == 0)) nothing_changed) _ h in
    let (e, d, h2) =
      ok_before (require (all (λ field. has field view.editable) (fields_of diff)) not_editable) _
        h1 in
    let agree =
      dates_agree (get "research_on" (update_values diff view.fields))
        (get "deadline" (update_values diff view.fields)) in
    let (g, i, h3) = ok_before (require agree dates_disagree) _ h2 in
    inr (
      id,
      f,
      append_event w edited actor none none none (change_rows diff) f,
      at_id,
      append_event-HasRow w edited actor none none none (change_rows diff) f,
      sym (ap (λ q. q.1) (ok_injective h3)),
    )

edit_card-Writes :
    (w : World) (id : String) (changes : Dict Value) (rev : ℕ) (actor : String) (b : Board)
    (r : List String × Board)
    → edit_card w id changes rev actor b ≡ ok r
    → Writes b r.1
unfolding edit_card
edit_card-Writes w id changes rev actor b r h =
    let (u, a, h1) = ok_before (require_actor actor (name "dave" ∷ name "mac:claude" ∷ [])) _ h in
    let (l, c, h2) =
      ok_before (require (not (any is_locked (fields_of changes))) locked_field) _ h1 in
    let (f, at_id, h3) = ok_before (found (lookup id b.cards) no_such_card) _ h2 in
    let (view, fresh, h4) = ok_before (fresh_view w f) _ h3 in
    let (v, d, h5) = ok_before (require (length f.events == rev) stale_revision) _ h4 in
    let (diff, e, h6) = ok_before (found (diff_of view.fields changes) unreadable) _ h5 in
    save_edit-Writes w id actor view diff f b r (found-some (lookup id b.cards) no_such_card at_id)
      h6

take_card-HasRow :
    (w : World) (purpose : Wanted) (run_id workflow : String) (view : CardView) (f : Folder)
    → HasRow f (take_card w purpose run_id workflow view f)
unfolding take_card append_event
take_card-HasRow w purpose run_id workflow view f = (refl, (_, refl))

pick_card-Writes :
    (w : World) (purpose : Wanted) (run_id workflow : String) (owner kind card : Option String)
    (b : Board) (id : String) (b' : Board)
    → pick_card w purpose run_id workflow owner kind card b ≡ ok (some (id, b'))
    → Writes b b'
pick_card-Writes w purpose run_id workflow owner kind card b id b' h =
    given (pick_card-Taken w purpose run_id workflow owner kind card b id b' h)
  where
    given :
        ((b' ≡ b) × HadBefore run_id b id) ⊎ Taken w purpose run_id workflow b (id, b')
        → Writes b b'
    given (inl (same, had)) = inl same
    given (inr (f, view, at_id, fresh, wanted, whole, after)) = inr (
      id,
      f,
      take_card w purpose run_id workflow view f,
      at_id,
      take_card-HasRow w purpose run_id workflow view f,
      after,
    )

-- A step of the board: a verb that writes a ledger, in any world.
pub data Step : Board → Board → Type 0 where
  holds :
      (w : World) (id reason actor : String) (b : Board) (r : Bool × Board)
      → hold_card w id reason actor b ≡ ok r
      → Step b r.1
  notes :
      (w : World) (id body actor : String) (kind : Option String) (b b' : Board)
      → add_note w id body actor kind b ≡ ok b'
      → Step b b'
  briefs :
      (w : World) (id body actor : String) (rev : Option ℕ) (b : Board) (r : Option String × Board)
      → add_brief w id body actor rev b ≡ ok r
      → Step b r.1
  edits :
      (w : World) (id : String) (changes : Dict Value) (rev : ℕ) (actor : String) (b : Board)
      (r : List String × Board)
      → edit_card w id changes rev actor b ≡ ok r
      → Step b r.1
  picks :
      (w : World) (purpose : Wanted) (run_id workflow : String) (owner kind card : Option String)
      (b : Board) (id : String) (b' : Board)
      → pick_card w purpose run_id workflow owner kind card b ≡ ok (some (id, b'))
      → Step b b'

pub data Steps : Board → Board → Type 0 where
  done : (b : Board) → Steps b b
  step : (b c d : Board) → Step b c → Steps c d → Steps b d

Step-Writes : (b b' : Board) → Step b b' → Writes b b'
Step-Writes b b' (holds w id reason actor c r h) = hold_card-Writes w id reason actor c r h
Step-Writes b b' (notes w id body actor kind c d h) = add_note-Writes w id body actor kind c d h
Step-Writes b b' (briefs w id body actor rev c r h) = add_brief-Writes w id body actor rev c r h
Step-Writes b b' (edits w id changes rev actor c r h) =
    edit_card-Writes w id changes rev actor c r h
Step-Writes b b' (picks w purpose run_id workflow owner kind card c id d h) =
    pick_card-Writes w purpose run_id workflow owner kind card c id d h

-- The card's folder is still there: its card is the same, and its ledger begins with the old one.
abbrev pub Extends : String → Folder → Board → Type 0
Extends k f b' =
    (g : Folder) × (lookup k b'.cards ≡ some g)
    × (g.card ≡ f.card)
    × ((rows : List Event) × (g.events ≡ f.events ++ rows))

some_injective : {A : Type 0} {a b : A} → some a ≡ some b → a ≡ b
some_injective h = cc

Writes-Extends :
    (b b' : Board) (k : String) (f : Folder)
    → Writes b b'
    → lookup k b.cards ≡ some f
    → Extends k f b'
unfolding put_folder
Writes-Extends b b' k f (inl same) h =
    subst (Extends k f) (sym same) (f, h, refl, ([], sym (append-nil f.events)))
Writes-Extends b b' k f (inr (id, f0, g, at_id, (card, (e, row)), after)) h =
    subst (Extends k f) (sym after) (put (Bool-cases (str_eq id k)))
  where
    is_it : str_eq id k ≡ true → f0 ≡ f
    is_it e = some_injective (sym at_id ∙ ap (λ i. lookup i b.cards) (str_eq→eq id k e) ∙ h)

    found_here : str_eq id k ≡ true → lookup k (insert id g b.cards) ≡ some g
    found_here s = ground (arith, lookup-insert id k g b.cards, s)

    elsewhere :
        str_eq id k ≡ false → (if str_eq id k then some g else lookup k b.cards) ≡ lookup k b.cards
    elsewhere s = ground (arith, s)

    put :
        (str_eq id k ≡ true) ⊎ (str_eq id k ≡ false)
        → Extends k f (record b { cards = insert id g b.cards })
    put (inl s) = (
      g,
      found_here s,
      card ∙ ap (λ x. x.card) (is_it s),
      (e ∷ [], row ∙ ap (λ x. x.events ++ (e ∷ [])) (is_it s)),
    )
    put (inr s) =
        (f, lookup-insert id k g b.cards ∙ elsewhere s ∙ h, refl, ([], sym (append-nil f.events)))

-- Whatever holds, notes, briefs, edits and picks are run, in any order and in any worlds, a card's
-- `card.json` is not rewritten and its ledger is only appended to.
pub ledgers_only_grow :
    (b b' : Board) (k : String) (f : Folder)
    → Steps b b'
    → lookup k b.cards ≡ some f
    → Extends k f b'
ledgers_only_grow b b' k f (done c) h = (f, h, refl, ([], sym (append-nil f.events)))
ledgers_only_grow b b' k f (step c d e s ss) h =
    let (g, at_k, card, (rows, more)) = Writes-Extends c d k f (Step-Writes c d s) h in
    let (g2, at_k2, card2, (rows2, more2)) = ledgers_only_grow d e k g ss at_k in
    (
      g2,
      at_k2,
      card2 ∙ card,
      (rows ++ rows2, more2 ∙ ap (λ l. l ++ rows2) more ∙ append_assoc f.events rows rows2),
    )
