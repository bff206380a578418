-- ===== src/Board/Editable.antt =====
-- bin/board.py, `edit_card`: which fields an edit may change.
use hermes_agent_workforce_p.Prelude.{
  ℕ, ◌≡◌, refl, false, ◌++◌, map, sym, ap, subst, String, Bool, true, not, ◌&&◌, Option, some, List,
  [], ◌∷◌, In, In-filter, In-sorted, inl, inr, arith, Bool-cases, all, any, has, length, ◌==◌,
  str_leb, str_eq, str_eq→eq,
}
use hermes_agent_workforce_p.Prelude.Dict.{Dict, lookup}
use hermes_agent_workforce_p.Ledger.{Value, Event, Change, change, edited, get}
use hermes_agent_workforce_p.Ledger.Flow.{Column}
use hermes_agent_workforce_p.Ledger.Blocks.{Cause}
use hermes_agent_workforce_p.Ledger.Derive.{
  CardView, derive, view_of, editable_names, editable_fields, is_editable,
}
use hermes_agent_workforce_p.Ledger.Columns.{derive-view, view_at}
use hermes_agent_workforce_p.Board.{
  Folder, Board, World, no_such_card, stale_revision, locked_field, nothing_changed, not_editable,
  dates_disagree, unreadable, ok, found, require, fresh_view, ok_before, require-ok, append_event,
  put_folder,
}
use hermes_agent_workforce_p.Board.Actor.{require_actor, name}
use hermes_agent_workforce_p.Board.Edit.{
  edit_card, save_edit, is_locked, diff_of, update_values, dates_agree, fields_of, change_rows,
}
use hermes_agent_workforce_p.Board.Runs.{found-some, ok_injective}

has-In : (k : String) (xs : List String) → has k xs ≡ true → In k xs
has-In k [] h = ground (arith, h)
has-In k (x ∷ xs) h = elim (Bool-cases (str_eq x k)) [
  | inl e ↦ inl (str_eq→eq x k e)
  | inr e ↦ inr (has-In k xs (ground (arith, h, e)))
]

all-In :
    (p : String → Bool) (xs : List String) (k : String) → all p xs ≡ true → In k xs → p k ≡ true
all-In p (x ∷ xs) k h (inl e) = subst (λ y. p y ≡ true) e (ground (arith, h))
all-In p (x ∷ xs) k h (inr i) = all-In p xs k (ground (arith, h)) i
all-In p [] k h i = absurd i

editable_fields-In :
    (c : Column) (has_run : Bool) (k : String)
    → In k (editable_fields c has_run)
    → ((is_editable k c && not (has_run && str_eq k "scope")) ≡ true) × (is_locked k ≡ false)
unfolding editable_fields
editable_fields-In c has_run k i =
    let (j, may) =
      In-filter (λ name. is_editable name c && not (has_run && str_eq name "scope")) k
        editable_names i in
    (may, unlocked k j)
  where
    unlocked : (k : String) → In k editable_names → is_locked k ≡ false
    unlocked k (inl e) = ap is_locked (sym e)
    unlocked k (inr (inl e)) = ap is_locked (sym e)
    unlocked k (inr (inr (inl e))) = ap is_locked (sym e)
    unlocked k (inr (inr (inr (inl e)))) = ap is_locked (sym e)
    unlocked k (inr (inr (inr (inr (inl e))))) = ap is_locked (sym e)
    unlocked k (inr (inr (inr (inr (inr (inl e)))))) = ap is_locked (sym e)
    unlocked k (inr (inr (inr (inr (inr (inr (inl e))))))) = ap is_locked (sym e)
    unlocked k (inr (inr (inr (inr (inr (inr (inr (inl e)))))))) = ap is_locked (sym e)
    unlocked k (inr (inr (inr (inr (inr (inr (inr (inr i)))))))) = absurd i

unfoldable MayEdit : String → CardView → Type 0
MayEdit k v =
    In k v.editable
    → ((is_editable k v.column && not (v.has_research_run && str_eq k "scope")) ≡ true)
      × (is_locked k ≡ false)

view_at-MayEdit :
    (w : World) (f : Folder) (k : String) (cause : Option Cause) (due : Option ℕ)
    → MayEdit k (
        view_at w.box_instant f.card f.events w.decisions w.receipts [] w.now w.today w.timeout
          cause due)
unfolding MayEdit view_of
view_at-MayEdit w f k cause due i =
    let v =
      view_at w.box_instant f.card f.events w.decisions w.receipts [] w.now w.today w.timeout cause
        due in
    editable_fields-In v.column v.has_research_run k i

-- The fields of a fresh view that may be edited.
fresh-editable :
    (w : World) (f : Folder) (view : CardView) (k : String)
    → fresh_view w f ≡ ok view
    → MayEdit k view
unfolding fresh_view
fresh-editable w f view k fresh =
    let (cause, due, c, same) =
      derive-view w.box_instant f.card f.events w.decisions w.receipts [] w.now w.today w.timeout
        view
        (found-some
          (derive w.box_instant f.card f.events w.decisions w.receipts [] w.now w.today w.timeout)
          unreadable fresh) in
    subst (MayEdit k) same (view_at-MayEdit w f k cause due)

-- A name in the rows of an edit is one of the names of its diff.
change_rows-In :
    (diff : Dict Value) (k : String) (c : Change)
    → In (k, c) (change_rows diff)
    → In k (fields_of diff)
change_rows-In diff k c i = names diff (
    In-sorted (λ (a b : String × Change). str_leb a.0 b.0) (k, c)
      (map (λ (p : String × Value). (p.0, change p.1)) diff) i)
  where
    names :
        (d : Dict Value)
        → In {A = String × Change} (k, c) (map (λ (p : String × Value). (p.0, change p.1)) d)
        → In k (fields_of d)
    names [] j = j
    names (p ∷ ps) (inl e) = inl (ap (λ (q : String × Change). q.0) e)
    names (p ∷ ps) (inr j) = inr (names ps j)

-- What an edit saves: one row of the actor in the card's ledger, and its changes.
record Saved (id actor : String) (view : CardView) (f : Folder) (b b' : Board) (names : List String)
    : Type 0 where
  row : Event
  kind : row.event ≡ edited
  by : row.actor ≡ some actor
  written : b' ≡ put_folder id (record f { events = f.events ++ (row ∷ []) }) b
  changes : (k : String) (c : Change) → In (k, c) row.fields → In k view.editable
  named : (k : String) → In k names → In k view.editable

save_edit-Saved :
    (w : World) (id actor : String) (view : CardView) (diff : Dict Value) (f : Folder) (b : Board)
    (r : List String × Board)
    → save_edit w id actor view diff f b ≡ ok r
    → Saved id actor view f b r.1 r.0
unfolding save_edit append_event
save_edit-Saved w id actor view diff f b r h =
    let (n, c, h1) = ok_before (require (not (length diff == 0)) nothing_changed) _ h in
    let editable = all (λ field. has field view.editable) (fields_of diff) in
    let (e, d, h2) = ok_before (require editable not_editable) _ h1 in
    let agree =
      dates_agree (get "research_on" (update_values diff view.fields))
        (get "deadline" (update_values diff view.fields)) in
    let (g, j, h3) = ok_before (require agree dates_disagree) _ h2 in
    let same = ok_injective h3 in
    record {
      row = _;
      kind = refl;
      by = refl;
      written = sym (ap (λ (q : List String × Board). q.1) same);
      changes = λ k c i. allowed (require-ok editable not_editable d) k (change_rows-In diff k c i);
      named = λ k i. allowed (require-ok editable not_editable d) k (
          In-sorted str_leb k (fields_of diff)
            (subst (In k) (sym (ap (λ (q : List String × Board). q.0) same)) i));
    }
  where
    allowed :
        all (λ field. has field view.editable) (fields_of diff) ≡ true
        → (k : String) → In k (fields_of diff)
        → In k view.editable
    allowed t k i =
        has-In k view.editable (all-In (λ field. has field view.editable) (fields_of diff) k t i)

-- An edit that is saved adds one row, of the actor, to the ledger of the card that it found, and
-- changes nothing else on the board. Each field that the row changes, and each that the edit answers
-- with, is editable in the card's column, is not the scope once the card has had a research run, and
-- is none of the locked `id`, `owner` and `kind`.
pub edit_editable :
    (w : World) (id : String) (changes : Dict Value) (rev : ℕ) (actor : String) (b : Board)
    (r : List String × Board)
    → edit_card w id changes rev actor b ≡ ok r
    → (f : Folder) × (view : CardView) × (lookup id b.cards ≡ some f)
      × (fresh_view w f ≡ ok view)
      × ((row : Event) × (row.event ≡ edited)
          × (row.actor ≡ some actor)
          × (r.1 ≡ put_folder id (record f { events = f.events ++ (row ∷ []) }) b)
          × ((k : String) (c : Change)
              → In (k, c) row.fields
              → ((is_editable k view.column && not (view.has_research_run && str_eq k "scope"))
                  ≡ true)
                × (has k ("id" ∷ "owner" ∷ "kind" ∷ []) ≡ false)))
      × ((k : String)
          → In k r.0
          → ((is_editable k view.column && not (view.has_research_run && str_eq k "scope")) ≡ true)
            × (has k ("id" ∷ "owner" ∷ "kind" ∷ []) ≡ false))
unfolding edit_card MayEdit
edit_editable w id changes rev actor b r h =
    let (u, a, h1) = ok_before (require_actor actor (name "dave" ∷ name "mac:claude" ∷ [])) _ h in
    let (l, c, h2) =
      ok_before (require (not (any is_locked (fields_of changes))) locked_field) _ h1 in
    let (f, at_id, h3) = ok_before (found (lookup id b.cards) no_such_card) _ h2 in
    let (view, fresh, h4) = ok_before (fresh_view w f) _ h3 in
    let (v, d, h5) = ok_before (require (length f.events == rev) stale_revision) _ h4 in
    let (diff, e, h6) = ok_before (found (diff_of view.fields changes) unreadable) _ h5 in
    let saved = save_edit-Saved w id actor view diff f b r h6 in
    let saved_named = saved.named in
    let saved_changes = saved.changes in
    (
      f,
      view,
      found-some (lookup id b.cards) no_such_card at_id,
      fresh,
      (
        saved.row,
        saved.kind,
        saved.by,
        saved.written,
        λ k c i. fresh-editable w f view k fresh (saved_changes k c i),
      ),
      λ k i. fresh-editable w f view k fresh (saved_named k i),
    )
