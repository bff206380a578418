-- ===== src/Board/Trashed.antt =====
-- bin/board.py: a card that is trashed and restored is as it was, and a purge takes what is due.
use hermes_agent_workforce_p.Prelude.{
  ℕ, ◌+◌, ◌*◌, ◌≤◌, ◌≡◌, refl, ap, sym, ◌∙◌, subst, leb, String, Bool, true, false, Option, none,
  some, List, [], ◌∷◌, inl, inr, ◌⊎◌, arith, Bool-cases, Option-cases, if◌then◌else◌, str_eq,
  str_eq→eq, str_eq_refl, str_eq-cases,
}
use hermes_agent_workforce_p.Prelude.Dict.{
  Dict, lookup, insert, erase, IsDict, insert-IsDict, lookup-insert, lookup-erase,
}
use hermes_agent_workforce_p.Stamp.{Stamp, is_set}
use hermes_agent_workforce_p.Ledger.{Decision, deleted, restored, moment}
use hermes_agent_workforce_p.Ledger.Derive.{deletion, is_deleted}
use hermes_agent_workforce_p.Ledger.Deletion.{on_card, IsOn, deletion-Deleted, never-deleted}
use hermes_agent_workforce_p.Board.{Folder, Board, ok}
use hermes_agent_workforce_p.Board.Trash.{
  trash_card, restore_card, purge_trash, purge_rows, purge_after, is_due, deleted_at,
}

-- The same folders by id.
abbrev pub Same : Board → Board → Type 0
Same b b' =
    ((k : String) → lookup k b'.cards ≡ lookup k b.cards)
    × ((k : String) → lookup k b'.trash ≡ lookup k b.trash)

-- A deletion whose retention of thirty days has ended, and that no restoration follows.
abbrev pub OldDeletion : List Decision → String → ℕ → Type 0
OldDeletion decisions id now =
    (d : Decision) × IsOn id decisions deleted d
    × (moment d.ts + 30 * 86400 ≤ now)
    × ((e : Decision) → IsOn id decisions restored e → moment e.ts ≤ moment d.ts)

trash_card-moved :
    (id : String) (b b' : Board)
    → trash_card id b ≡ ok (true, b')
    → (f : Folder) × (lookup id b.cards ≡ some f)
      × (lookup id b.trash ≡ none)
      × (record { cards = erase id b.cards; trash = insert id f b.trash } ≡ b')
unfolding trash_card
trash_card-moved id b b' h = elim (Option-cases (lookup id b.cards)) [
  | inl e ↦ absurd (ground (arith, h, e))
  | inr (f, e) ↦ elim (Option-cases (lookup id b.trash)) [
    | inr (g, t) ↦ absurd (ground (arith, h, e, t))
    | inl t ↦ (f, e, t, ground (arith, h, e, t))
  ]
]

restored-Same :
    (id : String) (f : Folder) (b : Board)
    → IsDict b.cards
    → IsDict b.trash
    → lookup id b.cards ≡ some f
    → lookup id b.trash ≡ none
    → Same b
        (record { cards = insert id f (erase id b.cards); trash = erase id (insert id f b.trash) })
restored-Same id f b hc ht e t = (
  λ k. ground (
    arith,
    e,
    lookup-insert id k f (erase id b.cards),
    lookup-erase id k b.cards hc,
    str_eq-cases id k,
  ),
  λ k. ground (
    arith,
    t,
    lookup-erase id k (insert id f b.trash) (insert-IsDict id f b.trash ht),
    lookup-insert id k f b.trash,
    str_eq-cases id k,
  ),
)

lookup-purge_none :
    (decisions : List Decision) (now : ℕ) (d : Dict Folder) (id : String)
    → lookup id d ≡ none
    → lookup id (purge_rows decisions now d) ≡ none
lookup-purge_none decisions now [] id h = refl
lookup-purge_none decisions now ((k, g) ∷ d) id h = elim (Bool-cases (str_eq k id)) [
  | inl e ↦ absurd (ground (arith, h, e))
  | inr e ↦ elim (Bool-cases (is_due (purge_after decisions k) now)) [
    | inl t ↦ rw t (lookup-purge_none decisions now d id (rw e at h))
    | inr t ↦ rw (t, e) (lookup-purge_none decisions now d id (rw e at h))
  ]
]

lookup-purge_rows :
    (decisions : List Decision) (now : ℕ) (d : Dict Folder) (id : String) (f : Folder)
    → IsDict d
    → lookup id d ≡ some f
    → lookup id (purge_rows decisions now d)
      ≡ (if is_due (purge_after decisions id) now then none else some f)
lookup-purge_rows decisions now [] id f hd h = cc
lookup-purge_rows decisions now ((k, g) ∷ d) id f hd h = elim (Bool-cases (str_eq k id)) [
  | inl e ↦
      subst
        (λ i.
          lookup id (purge_rows decisions now ((k, g) ∷ d))
          ≡ (if is_due (purge_after decisions i) now then none else some f))
        (str_eq→eq k id e)
        (subst
          (λ x.
            lookup id (purge_rows decisions now ((k, g) ∷ d))
            ≡ (if is_due (purge_after decisions k) now then none else some x))
          (is_it e) (head e (Bool-cases (is_due (purge_after decisions k) now))))
  | inr e ↦ elim (Bool-cases (is_due (purge_after decisions k) now)) [
    | inl t ↦ rw t (lookup-purge_rows decisions now d id f hd.1 (rw e at h))
    | inr t ↦ rw (t, e) (lookup-purge_rows decisions now d id f hd.1 (rw e at h))
  ]
]
  where
    is_it : str_eq k id ≡ true → g ≡ f
    is_it e = ground (arith, h, e)

    not_in : str_eq k id ≡ true → lookup id d ≡ none
    not_in e = subst (λ i. lookup i d ≡ none) (str_eq→eq k id e) hd.0

    head :
        str_eq k id ≡ true
        → (is_due (purge_after decisions k) now ≡ true)
          ⊎ (is_due (purge_after decisions k) now ≡ false)
        → lookup id (purge_rows decisions now ((k, g) ∷ d))
          ≡ (if is_due (purge_after decisions k) now then none else some g)
    head e (inl t) = rw t (lookup-purge_none decisions now d id (not_in e))
    head e (inr t) = rw (t, e) refl

-- A trashed card can be restored, and then each id has the folder that it had, on the board and in
-- the trash, where no id stands twice.
pub trash-restore :
    (id : String) (b b' : Board)
    → IsDict b.cards
    → IsDict b.trash
    → trash_card id b ≡ ok (true, b')
    → (b'' : Board) × (restore_card id b' ≡ ok (true, b'')) × Same b b''
unfolding restore_card
trash-restore id b b' hc ht h =
    let (f, e, t, same) = trash_card-moved id b b' h in
    let u : Board = record { cards = erase id b.cards; trash = insert id f b.trash } in
    let v : Board = record {
      cards = insert id f (erase id b.cards);
      trash = erase id (insert id f b.trash);
    } in
    (
      v,
      subst (λ x. restore_card id x ≡ ok (true, v)) same
          (rw (restore_card, in_trash_now f, off_board) refl),
      restored-Same id f b hc ht e t,
    )
  where
    in_trash_now : (f : Folder) → lookup id (insert id f b.trash) ≡ some f
    in_trash_now f = ground (arith, lookup-insert id id f b.trash, str_eq_refl id)

    off_board : lookup id (erase id b.cards) ≡ none
    off_board = ground (arith, lookup-erase id id b.cards hc, str_eq_refl id)

-- A stamp that is there is purged after the retention, one that is not never.
due-set :
    (decisions : List Decision) (id : String) (now : ℕ) (ts : Option Stamp)
    → deleted_at decisions id ≡ ts
    → is_set ts ≡ true
    → is_due (purge_after decisions id) now ≡ leb (moment ts + 30 * 86400) now
due-set decisions id now ts h k = ground (arith, h, k)

due-unset :
    (decisions : List Decision) (id : String) (now : ℕ)
    → is_set (deleted_at decisions id) ≡ false
    → is_due (purge_after decisions id) now ≡ false
due-unset decisions id now h = ground (arith, h)

-- A card that is due has a deletion that is old enough, and no restoration after it.
due-Deleted :
    (decisions : List Decision) (id : String) (now : ℕ)
    → is_due (purge_after decisions id) now ≡ true
    → OldDeletion decisions id now
due-Deleted decisions id now h = elim (Bool-cases (is_set (deleted_at decisions id))) [
  | inr n ↦ absurd (clash (sym h ∙ due-unset decisions id now n))
  | inl k ↦ elim (Option-cases (deletion (on_card id decisions))) [
    | inl n ↦ absurd (ground (arith, k, n))
    | inr (d, e) ↦ elim (Bool-cases (is_deleted (some d))) [
      | inr f ↦ absurd (ground (arith, k, e, f))
      | inl t ↦
          let (on, after) = deletion-Deleted id decisions d e t in
          (d, on, ground (arith, h, k, e, t), after)
    ]
  ]
]
  where
    clash : true ≡ false → ⊥
    clash x = cc

-- Where no id stands twice in the trash, a purge takes a trashed card exactly when the retention
-- of thirty days since its deletion on record has ended, and keeps one that has no deletion on
-- record, or one with an empty stamp. A card that it takes has a deletion of that age that no
-- restoration follows; one that was never deleted is kept. No card on the board is touched.
pub purge_trash-keeps :
    (decisions : List Decision) (now : ℕ) (b : Board) (id : String) (f : Folder)
    → IsDict b.trash
    → lookup id b.trash ≡ some f
    → let after = lookup id (purge_trash decisions now b).trash in
      ((purge_trash decisions now b).cards ≡ b.cards)
      × (is_set (deleted_at decisions id) ≡ true
          → after
            ≡ (if leb (moment (deleted_at decisions id) + 30 * 86400) now then none else some f))
      × (is_set (deleted_at decisions id) ≡ false → after ≡ some f)
      × ((after ≡ some f) ⊎ ((after ≡ none) × OldDeletion decisions id now))
      × (((d : Decision) → IsOn id decisions deleted d → ⊥) → after ≡ some f)
unfolding purge_trash
purge_trash-keeps decisions now b id f hd h = (
  refl,
  λ k.
      kept
      ∙ ap (λ (t : Bool). if t then none else some f)
          (due-set decisions id now (deleted_at decisions id) refl k),
  λ n. kept ∙ ap (λ (t : Bool). if t then none else some f) (due-unset decisions id now n),
  elim (Bool-cases (is_due (purge_after decisions id) now)) [
    | inl t ↦ inr (kept ∙ rw t refl, due-Deleted decisions id now t)
    | inr t ↦ inl (kept ∙ rw t refl)
  ],
  λ n.
      kept
      ∙ ap (λ (t : Bool). if t then none else some f)
          (due-unset decisions id now (unset (never-deleted id decisions n))),
)
  where
    kept :
        lookup id (purge_rows decisions now b.trash)
        ≡ (if is_due (purge_after decisions id) now then none else some f)
    kept = lookup-purge_rows decisions now b.trash id f hd h

    unset :
        is_deleted (deletion (on_card id decisions)) ≡ false
        → is_set (deleted_at decisions id) ≡ false
    unset n = ground (arith, n)
