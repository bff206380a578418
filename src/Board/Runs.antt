-- ===== src/Board/Runs.antt =====
-- bin/board.py, `pick_card`: what a run that takes a card has been given.
use hermes_agent_workforce_p.Prelude.{
  ◌≡◌, refl, ap, subst, ◌∙◌, String, Bool, true, false, ◌&&◌, Option, none, some, List, [], ◌∷◌, In,
  inl, inr, ◌⊎◌, arith, Bool-cases, Option-cases, str_eq, str_eq→eq, ◌<>◌,
}
use hermes_agent_workforce_p.Prelude.Dict.{lookup}
use hermes_agent_workforce_p.Ledger.{Decision, brief_approved}
use hermes_agent_workforce_p.Ledger.Derive.{CardView, derive, Wanted, research_run, brief_run}
use hermes_agent_workforce_p.Ledger.Columns.{worked-approved, is_worked}
use hermes_agent_workforce_p.Ledger.Research.{wants-research}
use hermes_agent_workforce_p.Board.{
  Folder, Board, World, BoardError, Result, unreadable, ok, found, fresh_view, put_folder,
  ok_before,
}
use hermes_agent_workforce_p.Board.Again.{HadBefore, taken_by-HadBefore}
use hermes_agent_workforce_p.Board.Actor.{require_actor, family}
use hermes_agent_workforce_p.Board.Texts.{text_hash}
use hermes_agent_workforce_p.Board.Pick.{
  is_eligible, wants_is, is_intact, intact_if, taken_if, take_card, try_card, try_cards, or_next,
  picked_again, pick_new, pick_card, candidates, collect, taken_by,
}

-- The run took the card: a fresh look at the folder finds that it wants this run, and its brief is
-- intact; the board gains the run's row and nothing else.
abbrev pub Taken : World → Wanted → String → String → Board → String × Board → Type 0
Taken w purpose run_id workflow b (id, b') =
    (f : Folder) × (view : CardView) × (lookup id b.cards ≡ some f)
    × (fresh_view w f ≡ ok view)
    × (is_eligible purpose view ≡ true)
    × (is_intact w f view.brief_hash ≡ ok true)
    × (b' ≡ put_folder id (take_card w purpose run_id workflow view f) b)

pub found-some :
    {A : Type 0} (o : Option A) (e : BoardError) {a : A} → found o e ≡ ok a → o ≡ some a
found-some none e h = cc
found-some (some x) e h = cc

taken_if-some :
    (ready : Bool) (id : String) (b : Board) (r : String × Board)
    → taken_if ready id b ≡ some r
    → (ready ≡ true) × ((id, b) ≡ r)
taken_if-some true id b r h = (refl, cc)
taken_if-some false id b r h = cc

intact_if-both :
    (w : World) (f : Folder) (view : CardView) (e intact : Bool)
    → intact_if w f view e ≡ ok intact
    → (e && intact) ≡ true
    → (e ≡ true) × (is_intact w f view.brief_hash ≡ ok true)
intact_if-both w f view true true h t = (refl, h)
intact_if-both w f view true false h t = ground (arith, t)
intact_if-both w f view false intact h t = ground (arith, t)

pub ok_injective : {A : Type 0} {a b : A} → ok a ≡ ok b → a ≡ b
ok_injective h = cc

module _ (w : World) (purpose : Wanted) (run_id workflow : String) where
  tried-Taken :
      (c : CardView) (b : Board) (r : String × Board) (f : Folder) (view : CardView) (intact : Bool)
      → lookup c.id b.cards ≡ some f
      → fresh_view w f ≡ ok view
      → intact_if w f view (is_eligible purpose view) ≡ ok intact
      → taken_if
          (is_eligible purpose view && intact)
          c.id
          (put_folder c.id (take_card w purpose run_id workflow view f) b)
        ≡ some r
      → Taken w purpose run_id workflow b r
  tried-Taken c b r f view intact at_id fresh i h =
      let b' = put_folder c.id (take_card w purpose run_id workflow view f) b in
      let (ready, same) = taken_if-some (is_eligible purpose view && intact) c.id b' r h in
      let (wanted, whole) = intact_if-both w f view (is_eligible purpose view) intact i ready in
      subst (Taken w purpose run_id workflow b) same (f, view, at_id, fresh, wanted, whole, refl)

  try_card-Taken :
      (c : CardView) (b : Board) (r : String × Board)
      → try_card w purpose run_id workflow c b ≡ ok (some r)
      → Taken w purpose run_id workflow b r
  unfolding try_card
  try_card-Taken c b r h =
      let (f, at_id, h1) = ok_before (found (lookup c.id b.cards) unreadable) _ h in
      let (view, fresh, h2) = ok_before (fresh_view w f) _ h1 in
      let (intact, i, h3) = ok_before (intact_if w f view (is_eligible purpose view)) _ h2 in
      tried-Taken c b r f view intact (found-some (lookup c.id b.cards) unreadable at_id) fresh i
        (ok_injective h3)

  try_cards-Taken :
      (cs : List CardView) (b : Board) (r : String × Board)
      → try_cards w purpose run_id workflow cs b ≡ ok (some r)
      → Taken w purpose run_id workflow b r
  try_cards-Taken [] b r h = cc
  try_cards-Taken (c ∷ cs) b r h =
      let (taken, t, h1) = ok_before (try_card w purpose run_id workflow c b) _ h in
      next (try_cards-Taken cs b r) taken t h1
    where
      next :
          (try_cards w purpose run_id workflow cs b ≡ ok (some r)
            → Taken w purpose run_id workflow b r)
          → (taken : Option (String × Board)) → try_card w purpose run_id workflow c b ≡ ok taken
          → or_next taken (try_cards w purpose run_id workflow cs b) ≡ ok (some r)
          → Taken w purpose run_id workflow b r
      next later none t h = later h
      next later (some q) t h = try_card-Taken c b r (t ∙ h)

  pick_new-Taken :
      (owner kind card : Option String) (views : List CardView) (b : Board) (r : String × Board)
      → pick_new w purpose run_id workflow owner kind card views b ≡ ok (some r)
      → Taken w purpose run_id workflow b r
  unfolding pick_new
  pick_new-Taken owner kind card views b r h =
      let (rows, c, h1) = ok_before (candidates purpose owner kind card views) _ h in
      try_cards-Taken rows b r h1

  came :
      (i id : String) (b b' : Board)
      → ◌≡◌ {A = Result (Option (String × Board))} (ok (some (i, b))) (ok (some (id, b')))
      → (b' ≡ b) × (i ≡ id)
  came i id b b' h = (cc, cc)

  -- The card was taken by the run before, or is taken now.
  pub pick_card-Taken :
      (owner kind card : Option String) (b : Board) (id : String) (b' : Board)
      → pick_card w purpose run_id workflow owner kind card b ≡ ok (some (id, b'))
      → ((b' ≡ b) × HadBefore run_id b id) ⊎ Taken w purpose run_id workflow b (id, b')
  unfolding pick_card
  pick_card-Taken owner kind card b id b' h =
      let (u, r, h1) = ok_before (require_actor ("run:" <> run_id) (family "run:" ∷ [])) _ h in
      let (views, c, h2) = ok_before (collect w b) _ h1 in
      again views (taken_by-HadBefore w run_id id b views c) (taken_by run_id views) refl h2
    where
      again :
          (views : List CardView)
          → (taken_by run_id views ≡ some id → HadBefore run_id b id)
          → (taken : Option String) → taken_by run_id views ≡ taken
          → picked_again taken b (pick_new w purpose run_id workflow owner kind card views b)
            ≡ ok (some (id, b'))
          → ((b' ≡ b) × HadBefore run_id b id) ⊎ Taken w purpose run_id workflow b (id, b')
      again views had (some i) t h =
          let (same, i_id) = came i id b b' h in inl (same, had (t ∙ ap some i_id))
      again views had none t h = inr (pick_new-Taken owner kind card views b (id, b') h)

wants_is-research : (o : Option Wanted) → wants_is research_run o ≡ true → o ≡ some research_run
wants_is-research none h = ground (arith, h)
wants_is-research (some research_run) h = refl
wants_is-research (some brief_run) h = ground (arith, h)

-- The folder holds a text of the hash, unless the hash is empty.
abbrev pub HasText : World → Folder → String → Type 0
HasText w f hash =
    (hash ≡ "") ⊎ ((body : String) × (lookup hash f.briefs ≡ some body) × (text_hash w body ≡ hash))

is_intact-HasText :
    (w : World) (f : Folder) (hash : String)
    → is_intact w f (some hash) ≡ ok true
    → HasText w f hash
is_intact-HasText w f hash h = elim (Bool-cases (str_eq hash "")) [
  | inl e ↦ inl (str_eq→eq hash "" e)
  | inr e ↦ elim (Option-cases (lookup hash f.briefs)) [
    | inl n ↦ absurd (ground (arith, h, e, n))
    | inr (body, n) ↦ inr (body, n, str_eq→eq (text_hash w body) hash (ground (arith, h, e, n)))
  ]
]

-- A card's research is founded on a hash: the decisions approve the brief of that hash for the card,
-- and the folder holds its text unless the hash is empty.
abbrev pub Founded : World → Folder → String → Type 0
Founded w f hash =
    ((d : Decision) × In d w.decisions
      × (d.card ≡ some f.card.id)
      × (d.decision ≡ brief_approved)
      × (d.brief_hash ≡ some hash))
    × HasText w f hash

fresh-Founded :
    (w : World) (f : Folder) (view : CardView)
    → fresh_view w f ≡ ok view
    → is_eligible research_run view ≡ true
    → is_intact w f view.brief_hash ≡ ok true
    → (hash : String) × (view.brief_hash ≡ some hash) × Founded w f hash
unfolding fresh_view
fresh-Founded w f view fresh wanted whole =
    let derived =
      found-some
        (derive w.box_instant f.card f.events w.decisions w.receipts [] w.now w.today w.timeout)
        unreadable fresh in
    let wants = wants_is-research view.wants wanted in
    let ready =
      wants-research w.box_instant f.card f.events w.decisions w.receipts [] w.now w.today w.timeout
        view derived in
    let worked = ap is_worked (ready.0 wants).0 in
    let (approved, (hash, same, by)) =
      worked-approved w.box_instant f.card f.events w.decisions w.receipts [] w.now w.today
        w.timeout view derived worked in
    (
      hash,
      same,
      (by, is_intact-HasText w f hash (subst (λ o. is_intact w f o ≡ ok true) same whole)),
    )

-- A research run that `pick_card` gives a card has had it before: a folder of the card has a row by
-- which this run picked it, and the board stays as it is; or the decisions hold an approval of the card's brief by its hash, the folder holds a text of that
-- hash unless the hash is empty, and the board gains the run's row in the card's ledger, with that
-- hash, and nothing else.
pub research_picked :
    (w : World) (run_id workflow : String) (owner kind card : Option String) (b : Board)
    (id : String) (b' : Board)
    → pick_card w research_run run_id workflow owner kind card b ≡ ok (some (id, b'))
    → ((b' ≡ b) × HadBefore run_id b id)
      ⊎ ((f : Folder) × (view : CardView) × (hash : String) × (lookup id b.cards ≡ some f)
          × (view.brief_hash ≡ some hash)
          × Founded w f hash
          × (b' ≡ put_folder id (take_card w research_run run_id workflow view f) b))
research_picked w run_id workflow owner kind card b id b' h =
    given (pick_card-Taken w research_run run_id workflow owner kind card b id b' h)
  where
    given :
        ((b' ≡ b) × HadBefore run_id b id) ⊎ Taken w research_run run_id workflow b (id, b')
        → ((b' ≡ b) × HadBefore run_id b id)
          ⊎ ((f : Folder) × (view : CardView) × (hash : String) × (lookup id b.cards ≡ some f)
              × (view.brief_hash ≡ some hash)
              × Founded w f hash
              × (b' ≡ put_folder id (take_card w research_run run_id workflow view f) b))
    given (inl same) = inl same
    given (inr (f, view, at_id, fresh, wanted, whole, after)) =
        let (hash, same, founded) = fresh-Founded w f view fresh wanted whole in
        inr (f, view, hash, at_id, same, founded, after)
