-- ===== src/Board/Again.antt =====
-- bin/board.py, `pick_card`: the card of a run that has one is a card that the run picked.
use hermes_agent_workforce_p.Prelude.{
  ◌≡◌, refl, ap, sym, subst, ◌∙◌, String, Bool, true, false, Option, none, some, List, [], ◌∷◌, map,
  any, In, In-filter, In-sorted, inl, inr, ◌⊎◌, arith, Bool-cases, opt_eq, leb, if◌then◌else◌,
}
use hermes_agent_workforce_p.Prelude.Dict.{Dict}
use hermes_agent_workforce_p.Ledger.{
  Event, EventKind, picked, is_kind, is_event, RunReceipt, moment, ordered_events,
}
use hermes_agent_workforce_p.Ledger.Brief.{Run, run_of, runs_of}
use hermes_agent_workforce_p.Ledger.Order.{opt_eq→eq}
use hermes_agent_workforce_p.Ledger.Derive.{CardView, derive, view_of}
use hermes_agent_workforce_p.Ledger.Columns.{derive-view}
use hermes_agent_workforce_p.Board.{Folder, Board, World, unreadable, ok, found, ok_before}
use hermes_agent_workforce_p.Board.Pick.{collect_folders, collect, has_run, taken_by}

-- A folder on the board is of the card, and its ledger has a row by which the run picked it.
abbrev pub HadBefore : String → Board → String → Type 0
HadBefore run_id b id =
    (key : String) × (f : Folder) × In (key, f) b.cards
    × (f.card.id ≡ id)
    × ((e : Event) × In e f.events × (e.event ≡ picked) × (e.run_id ≡ some run_id))

map-origin :
    {A B : Type 0} (f : A → B) (y : B) (xs : List A)
    → In y (map f xs)
    → (x : A) × In x xs × (f x ≡ y)
map-origin f y [] i = absurd i
map-origin f y (x ∷ xs) (inl e) = (x, inl refl, e)
map-origin f y (x ∷ xs) (inr i) = let (z, j, e) = map-origin f y xs i in (z, inr j, e)

any-In :
    {A : Type 0} (p : A → Bool) (xs : List A) → any p xs ≡ true → (x : A) × In x xs × (p x ≡ true)
any-In p [] h = cc
any-In p (x ∷ xs) h = elim (Bool-cases (p x)) [
  | inl e ↦ (x, inl refl, e)
  | inr e ↦ let (y, i, t) = any-In p xs (rw e at h) in (y, inr i, t)
]

picked-kind : (k : EventKind) → is_kind picked k ≡ true → k ≡ picked
picked-kind k h = ground (arith, h)

-- A run of a ledger is a row by which it picked the card.
runs_of-row :
    (run_id : String) (events : List Event) (receipts : Option String → Option RunReceipt)
    → any (λ (r : Run). opt_eq r.run_id (some run_id)) (runs_of events receipts) ≡ true
    → (e : Event) × In e events × (e.event ≡ picked) × (e.run_id ≡ some run_id)
unfolding runs_of ordered_events
runs_of-row run_id events receipts h =
    let (r, i, t) = any-In (λ (r : Run). opt_eq r.run_id (some run_id)) _ h in
    let (e, j, same) = map-origin (λ pick. run_of pick (receipts pick.run_id)) r _ i in
    let (k, is) = In-filter (is_event picked) e (ordered_events events) j in
    (
      e,
      In-sorted (λ (a b : Event). leb (moment a.ts) (moment b.ts)) e events k,
      picked-kind e.event is,
      ap (λ (x : Run). x.run_id) same ∙ opt_eq→eq r.run_id (some run_id) t,
    )

-- What a view keeps of its folder.
unfoldable Of : World → Folder → CardView → Type 0
Of w f v = (v.id ≡ f.card.id) × (v.runs ≡ runs_of f.events w.receipts)

derive-Of :
    (w : World) (f : Folder) (v : CardView)
    → derive w.box_instant f.card f.events w.decisions w.receipts w.main w.now w.today w.timeout
      ≡ some v
    → Of w f v
unfolding Of view_of
derive-Of w f v h =
    let (cause, due, c, same) =
      derive-view w.box_instant f.card f.events w.decisions w.receipts w.main w.now w.today
        w.timeout v h in
    subst (Of w f) same (refl, refl)

found-value : {A : Type 0} (o : Option A) {a : A} → found o unreadable ≡ ok a → o ≡ some a
found-value none h = cc
found-value (some x) h = cc

views-In :
    (b : Bool) (v u : CardView) (us views : List CardView)
    → ok (if b then us else u ∷ us) ≡ ok views
    → In v views
    → (v ≡ u) ⊎ In v us
views-In true v u us views h i = inr (subst (In v) (same h) i)
  where
    same : ok us ≡ ok views → views ≡ us
    same e = cc
views-In false v u us views h i = turn (subst (In v) (same h) i)
  where
    same : ok (u ∷ us) ≡ ok views → views ≡ (u ∷ us)
    same e = cc

    turn : In v (u ∷ us) → (v ≡ u) ⊎ In v us
    turn (inl e) = inl (sym e)
    turn (inr j) = inr j

collect_folders-In :
    (w : World) (d : Dict Folder) (views : List CardView) (v : CardView)
    → collect_folders w d ≡ ok views
    → In v views
    → (key : String) × (f : Folder) × In (key, f) d × Of w f v
collect_folders-In w [] views v h i = absurd (subst (In v) (empty h) i)
  where
    empty : ok [] ≡ ok views → views ≡ []
    empty e = cc
collect_folders-In w ((id, f) ∷ d) views v h i =
    let (u, a, h1) = ok_before (found _ unreadable) _ h in
    let (us, c, h2) = ok_before (collect_folders w d) _ h1 in
    elim (views-In u.deleted v u us views h2 i) [
      | inl same ↦ (id, f, inl refl, subst (Of w f) (sym same) (derive-Of w f u (found-value _ a)))
      | inr j ↦ let (key, g, k, of) = collect_folders-In w d us v c j in (key, g, inr k, of)
    ]

taken_by-In :
    (run_id id : String) (views : List CardView)
    → taken_by run_id views ≡ some id
    → (v : CardView) × In v views × (has_run run_id v ≡ true) × (v.id ≡ id)
taken_by-In run_id id [] h = cc
taken_by-In run_id id (v ∷ views) h = elim (Bool-cases (has_run run_id v)) [
  | inl e ↦ (v, inl refl, e, ground (arith, h, e))
  | inr e ↦ let (u, i, t, same) = taken_by-In run_id id views (rw e at h) in (u, inr i, t, same)
]

-- The card that `pick_card` finds taken by the run.
pub taken_by-HadBefore :
    (w : World) (run_id id : String) (b : Board) (views : List CardView)
    → collect w b ≡ ok views
    → taken_by run_id views ≡ some id
    → HadBefore run_id b id
unfolding collect Of
taken_by-HadBefore w run_id id b views c h =
    let (v, i, has, same) = taken_by-In run_id id views h in
    let (key, f, j, (of, runs)) = collect_folders-In w b.cards views v c i in
    (
      key,
      f,
      j,
      sym of ∙ same,
      runs_of-row run_id f.events w.receipts
          (subst (λ rs. any (λ (r : Run). opt_eq r.run_id (some run_id)) rs ≡ true) runs has),
    )
