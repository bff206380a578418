-- ===== src/Reactor/Attempts.antt =====
-- bin/board_reactor.py over many passes: the starts of one card while it reaches no pick.
use text.Mathlib.Text.{starts_with}
use text.Mathlib.TextPositions.{starts_with-append}
use hermes_agent_workforce_p.Prelude.{
  ℕ, zero, suc, ◌+◌, ◌≤◌, ◌<◌, ◌≡◌, refl, ap, sym, subst, ◌∙◌, String, Bool, true, false, Option,
  none, some, List, [], ◌∷◌, ◌++◌, map, arith, if◌then◌else◌, All, or_else, str_eq, str_eq-cases,
  Bool-cases, Option-cases, has, inl, inr, ◌⊎◌,
}
use hermes_agent_workforce_p.Prelude.Dict.{Dict, lookup, IsDict, lookup-insert, lookup-erase_ne}
use hermes_agent_workforce_p.Source.{Verb, Action, Plan, ErrorClass, Outcome, ok, failed}
use hermes_agent_workforce_p.Plan.{
  View, Memory, latest, clears, settle, settled_starts, trash_key, plan, no_memory, last_pick,
}
use hermes_agent_workforce_p.Plan.Justified.{plan-Justified}
use hermes_agent_workforce_p.Plan.Unique.{
  starts_card, start_count, IsKeyed, start_count-plan, starts-few-All,
}
use hermes_agent_workforce_p.Reactor.{
  Moment, State, Severity, Loop, Settings, Sight, Observation, Passed, Ending, runs_today,
  record_health, remember, remember_start, remember_restore, failed_entry, apply_one, apply_all,
  fail, conclude, settled, observed, budget_of, pass,
}
use hermes_agent_workforce_p.Reactor.Cap.{or_stop_ind}
use hermes_agent_workforce_p.Reactor.Backoff.{starts_of, remember-start_memory}
use hermes_agent_workforce_p.Reactor.Day.{Turn, turn, turns}

-- No trash key: a card's id holds no colon.
abbrev pub IsCardKey : String → Type 0
IsCardKey k = starts_with k "trash:" ≡ false

trash_key-ne : (c k : String) → IsCardKey k → str_eq (trash_key c) k ≡ false
unfolding trash_key
trash_key-ne c k h = elim (str_eq-cases (trash_key c) k) [
  | inl (same, e) ↦
      let t : starts_with k "trash:" ≡ true =
        subst (λ s. starts_with s "trash:" ≡ true) same (starts_with-append "trash:" c) in
      cc
  | inr (other, e) ↦ e
]

-- How often the lines of a pass start a card, whatever the outcome.
abbrev pub card_starts : String → List (Action × Outcome) → ℕ
card_starts k [] = 0
card_starts k (l ∷ ls) = if starts_card k l.0 then card_starts k ls + 1 else card_starts k ls

card_starts-append :
    (k : String) (xs ys : List (Action × Outcome))
    → card_starts k (xs ++ ys) ≡ card_starts k xs + card_starts k ys
card_starts-append k [] ys = omega arith
card_starts-append k (x ∷ xs) ys = ground (arith, card_starts-append k xs ys)

-- An instant, where there is one, lies before `since`; or not before it.
abbrev pub Before : ℕ → Option ℕ → Type 0
Before since none = Unit
Before since (some t) = t < since

abbrev pub Later : ℕ → Option ℕ → Type 0
Later since none = Unit
Later since (some t) = since ≤ t

-- From `since` on the card has reached no pick and was not unblocked.
abbrev pub IsFresh : ℕ → View → Type 0
IsFresh since v = Before since (last_pick v) × Before since v.unblocked_at

clears-fresh :
    (since : ℕ) (a b c : Option ℕ)
    → Later since a
    → Before since b
    → Before since c
    → clears a (latest b c) ≡ false
clears-fresh since none b c h p u = refl
clears-fresh since (some a) none none h p u = refl
clears-fresh since (some a) none (some c) h p u = ground (arith, h, u)
clears-fresh since (some a) (some b) none h p u = ground (arith, h, p)
clears-fresh since (some a) (some b) (some c) h p u = ground (arith, h, p, u)

-- The last start of a card, as the memory has it.
abbrev pub last_start_of : State → String → Option ℕ
last_start_of s k = (or_else (lookup k s.cards) no_memory).last_start

module _ (k : String) (card : IsCardKey k) (since : ℕ) where
  remember_start-starts :
      (s : State) (item : String) (o : Outcome) (now : Moment)
      → starts_of (remember_start s item o now) k
        ≡ (if str_eq item k then starts_of s k + 1 else starts_of s k)
  remember_start-starts s item o now = elim (str_eq-cases item k) [
    | inl (same, e) ↦ rw e (
        subst (λ i. starts_of (remember_start s item o now) i ≡ starts_of s i + 1) same
          (remember-start_memory s item k o now).0)
    | inr (other, e) ↦ rw e (
        ap (λ (m : Option Memory). or_else (or_else m no_memory).starts 0)
          ((remember-start_memory s item k o now).4 e))
  ]

  remember_restore-starts :
      (s : State) (item : String) (o : Outcome) (now : Moment)
      → starts_of (remember_restore s item o now) k ≡ starts_of s k
  unfolding remember_restore
  remember_restore-starts s item ok now =
      ap (λ (m : Option Memory). or_else (or_else m no_memory).starts 0)
        (lookup-erase_ne (trash_key item) k s.cards (trash_key-ne item k card))
  remember_restore-starts s item (failed class reason) now =
      ap (λ (m : Option Memory). or_else (or_else m no_memory).starts 0) {y = lookup k s.cards}
        (lookup-insert (trash_key item) k
            (failed_entry (or_else (lookup (trash_key item) s.cards) no_memory) now) s.cards
          ∙ rw (trash_key-ne item k card))

  remember-starts :
      (s : State) (a : Action) (o : Outcome) (now : Moment)
      → starts_of (remember s a o now) k ≡ starts_of s k + card_starts k ((a, o) ∷ [])
  unfolding remember
  remember-starts s a o now =
      ground (arith, remember_start-starts s a.item o now, remember_restore-starts s a.item o now)

  remember_start-Later :
      (s : State) (item : String) (o : Outcome) (now : Moment)
      → since ≤ now.instant
      → Later since (last_start_of s k)
      → Later since (last_start_of (remember_start s item o now) k)
  remember_start-Later s item o now t h = elim (str_eq-cases item k) [
    | inl (same, e) ↦
        subst (λ i. Later since (last_start_of (remember_start s item o now) i)) same
          (subst (Later since) (sym (remember-start_memory s item k o now).1) t)
    | inr (other, e) ↦
        subst (λ (m : Option Memory). Later since (or_else m no_memory).last_start)
          (sym ((remember-start_memory s item k o now).4 e)) h
  ]

  remember_restore-kept :
      (s : State) (item : String) (o : Outcome) (now : Moment)
      → lookup k (remember_restore s item o now).cards ≡ lookup k s.cards
  unfolding remember_restore
  remember_restore-kept s item ok now =
      lookup-erase_ne (trash_key item) k s.cards (trash_key-ne item k card)
  remember_restore-kept s item (failed class reason) now =
      lookup-insert (trash_key item) k
        (failed_entry (or_else (lookup (trash_key item) s.cards) no_memory) now) s.cards
      ∙ rw (trash_key-ne item k card)

  remember-cases :
      (s : State) (a : Action) (o : Outcome) (now : Moment)
      → (remember s a o now ≡ remember_start s a.item o now)
        ⊎ (remember s a o now ≡ remember_restore s a.item o now)
        ⊎ (remember s a o now ≡ s)
  unfolding remember
  remember-cases s a o now = choose a.verb refl
    where
      choose :
          (verb : Verb)
          → a.verb ≡ verb
          → (remember s a o now ≡ remember_start s a.item o now)
            ⊎ (remember s a o now ≡ remember_restore s a.item o now)
            ⊎ (remember s a o now ≡ s)
      choose Verb.start e = inl (rw e refl)
      choose Verb.restore e = inr (inl (rw e refl))
      choose Verb.stop e = inr (inr (rw e refl))
      choose Verb.hold e = inr (inr (rw e refl))
      choose Verb.trash e = inr (inr (rw e refl))
      choose Verb.purge e = inr (inr (rw e refl))

  remember-Later :
      (s : State) (a : Action) (o : Outcome) (now : Moment)
      → since ≤ now.instant
      → Later since (last_start_of s k)
      → Later since (last_start_of (remember s a o now) k)
  remember-Later s a o now t h = elim (remember-cases s a o now) [
    | inl e ↦
        subst (λ x. Later since (last_start_of x k)) (sym e)
          (remember_start-Later s a.item o now t h)
    | inr (inl e) ↦
        subst (λ x. Later since (last_start_of x k)) (sym e)
          (subst (λ (m : Option Memory). Later since (or_else m no_memory).last_start)
            (sym (remember_restore-kept s a.item o now)) h)
    | inr (inr e) ↦ subst (λ x. Later since (last_start_of x k)) (sym e) h
  ]

  apply_one-state :
      (now : Moment) (l : Loop) (a : Action) (o : Outcome)
      → (apply_one now l a o).state ≡ remember l.state a o now
  unfolding apply_one
  apply_one-state now l a o = ground arith

  apply_one-Later :
      (now : Moment) (l : Loop) (a : Action) (o : Outcome)
      → since ≤ now.instant
      → Later since (last_start_of l.state k)
      → Later since (last_start_of (apply_one now l a o).state k)
  apply_one-Later now l a o t h =
      subst (λ x. Later since (last_start_of x k)) (sym (apply_one-state now l a o))
        (remember-Later l.state a o now t h)

  -- A loop that runs from `since` on has dated no start before it.
  apply_all-Later :
      (apply : Action → Outcome) (now : Moment) (actions : List Action) (l : Loop)
      → since ≤ now.instant
      → Later since (last_start_of l.state k)
      → Later since (last_start_of (apply_all apply now l actions).0.state k)
  unfolding apply_all
  apply_all-Later apply now [] l t h = h
  apply_all-Later apply now (a ∷ rest) l t h =
      let m = apply_one now l a (apply a) in
      let next = apply_one-Later now l a (apply a) t h in
      or_stop_ind (λ l'. Later since (last_start_of l'.state k)) (apply a) m
        (apply_all apply now m rest) next (apply_all-Later apply now rest m t next)

  -- The memory counts the starts that the loop made, and it made no more than it was asked to.
  record Tallied (l l' : Loop) (actions : List Action) : Type 0 where
    counted :
        starts_of l'.state k + card_starts k l.lines ≡ starts_of l.state k + card_starts k l'.lines
    asked : card_starts k l'.lines ≤ card_starts k l.lines + start_count k actions

  apply_one-starts :
      (now : Moment) (l : Loop) (a : Action) (o : Outcome)
      → let l' = apply_one now l a o in
        (starts_of l'.state k ≡ starts_of l.state k + card_starts k ((a, o) ∷ []))
        × (card_starts k l'.lines ≡ card_starts k l.lines + card_starts k ((a, o) ∷ []))
  unfolding apply_one
  apply_one-starts now l a o =
      ground (arith, remember-starts l.state a o now, card_starts-append k l.lines ((a, o) ∷ []))

  apply_one-Tallied :
      (now : Moment) (l l' : Loop) (a : Action) (rest : List Action) (o : Outcome)
      → Tallied (apply_one now l a o) l' rest
      → Tallied l l' (a ∷ rest)
  apply_one-Tallied now l l' a rest o t =
      let (state, lines) = apply_one-starts now l a o in
      let counted = t.counted in
      let asked = t.asked in
      record {
        counted = omega (arith, state, lines, counted);
        asked = ground (arith, lines, asked);
      }

  apply_all-Tallied :
      (apply : Action → Outcome) (now : Moment) (actions : List Action) (l : Loop)
      → Tallied l (apply_all apply now l actions).0 actions
  unfolding apply_all
  apply_all-Tallied apply now [] l = record { counted = refl; asked = omega arith }
  apply_all-Tallied apply now (a ∷ rest) l =
      let m = apply_one now l a (apply a) in
      or_stop_ind (λ l'. Tallied l l' (a ∷ rest)) (apply a) m (apply_all apply now m rest)
        (apply_one-Tallied now l m a rest (apply a)
          (record { counted = refl; asked = omega arith }))
        (apply_one-Tallied now l _ a rest (apply a) (apply_all-Tallied apply now rest m))

  settled_starts-fresh :
      (m : Memory) (v : View) → IsFresh since v → Later since m.last_start → settled_starts m v ≡ m
  unfolding settled_starts
  settled_starts-fresh m v fresh h =
      rw (clears-fresh since m.last_start (last_pick v) v.unblocked_at h fresh.0 fresh.1) refl

  -- A view that shows no pick and no unblock since the last start clears no count.
  settle-lookup :
      (memory : Dict Memory) (views : Dict View) (trashed : List String) (v : View)
      → lookup k views ≡ some v
      → IsFresh since v
      → Later since (or_else (lookup k memory) no_memory).last_start
      → lookup k (settle memory views trashed) ≡ lookup k memory
  unfolding settle
  settle-lookup [] views trashed v e fresh h = refl
  settle-lookup ((j, m) ∷ memory) views trashed v e fresh h = elim (str_eq-cases j k) [
    | inl (same, t) ↦
        let found : lookup j views ≡ some v = subst (λ i. lookup i views ≡ some v) (sym same) e in
        rw (found, settle, t) (ap some (settled_starts-fresh m v fresh (rw t at h)))
    | inr (other, t) ↦
        let rest = settle-lookup memory views trashed v e fresh (rw t at h) in
        elim (Option-cases (lookup j views)) [
          | inr (u, found) ↦ rw (found, settle, t) rest
          | inl gone ↦ elim (Bool-cases (has j (map trash_key trashed))) [
            | inl kept ↦ rw (gone, settle, kept, t) rest
            | inr dropped ↦ rw (gone, settle, dropped, t) rest
          ]
        ]
  ]

  module _ (settings : Settings) (apply : Action → Outcome) (judge : Bool) (s : State) (v : Sight)
      (now : Moment) where
    chosen : Plan
    chosen =
        plan (observed s.cards v) now.instant (budget_of settings (settled s v) v now)
          settings.config

    abbrev begin : Loop
    begin = record {
      state = (runs_today (settled s v) now).0;
      worst = Severity.fine;
      reason = none;
      lines = [];
    }

    begin-starts : starts_of begin.state k ≡ starts_of (settled s v) k
    unfolding runs_today
    begin-starts = ground arith

    conclude-starts :
        (l : Loop)
        → (starts_of (conclude judge chosen now l).state k ≡ starts_of l.state k)
          × ((conclude judge chosen now l).lines ≡ l.lines)
    unfolding conclude record_health
    conclude-starts l = ground arith

    ended : Loop × Option (Option String) → Passed
    ended (l, none) = conclude judge chosen now l
    ended (l, some reason) = record {
      state = l.state;
      receipt = none;
      lines = l.lines;
      ending = Ending.raised reason;
    }

    -- What a pass does to the count of the card.
    abbrev Paced : Passed → Type 0
    Paced r =
        (starts_of r.state k ≡ starts_of (settled s v) k + card_starts k r.lines)
        × (card_starts k r.lines ≤ start_count k chosen.actions)

    ended-Paced :
        (x : Loop × Option (Option String)) → Tallied begin x.0 chosen.actions → Paced (ended x)
    unfolding ended
    ended-Paced (l, none) t =
        let (state, lines) = conclude-starts l in
        let counted = t.counted in
        let asked = t.asked in
        (
          omega (arith, state, ap (card_starts k) lines, counted, begin-starts),
          omega (arith, ap (card_starts k) lines, asked),
        )
    ended-Paced (l, some reason) t =
        let counted = t.counted in
        let asked = t.asked in (omega (arith, counted, begin-starts), omega (arith, asked))

    pass-Paced : Paced (pass settings apply judge s (Observation.sight v) now)
    unfolding pass ended chosen
    pass-Paced = ended-Paced _ (apply_all-Tallied apply now chosen.actions begin)

    settled-fresh :
        (view : View)
        → lookup k v.views ≡ some view
        → IsFresh since view
        → Later since (last_start_of s k)
        → lookup k (settled s v).cards ≡ lookup k s.cards
    unfolding settled observed
    settled-fresh view found fresh h = settle-lookup s.cards v.views _ view found fresh h

    ended-cards : (x : Loop × Option (Option String)) → (ended x).state.cards ≡ x.0.state.cards
    unfolding ended conclude record_health
    ended-cards (l, none) = ground arith
    ended-cards (l, some reason) = refl

    begin-cards : begin.state.cards ≡ (settled s v).cards
    unfolding runs_today
    begin-cards = ground arith

    -- A pass from `since` on has dated no start before it.
    pass-Later :
        since ≤ now.instant
        → Later since (last_start_of (settled s v) k)
        → Later since
            (last_start_of (pass settings apply judge s (Observation.sight v) now).state k)
    unfolding pass ended chosen
    pass-Later t h =
        subst later_in (sym (ended-cards (apply_all apply now begin chosen.actions)))
          (apply_all-Later apply now chosen.actions begin t (subst later_in (sym begin-cards) h))
      where
        later_in : Dict Memory → Type 0
        later_in d = Later since (or_else (lookup k d) no_memory).last_start

    few-before :
        0 < start_count k chosen.actions → starts_of (settled s v) k < settings.config.attempts
    unfolding settled observed chosen
    few-before h =
        starts-few-All k (observed s.cards v) now.instant settings.config _
          (plan-Justified (observed s.cards v) now.instant (budget_of settings (settled s v) v now)
            settings.config)
          h

    one-start : IsDict v.views → IsKeyed v.views → start_count k chosen.actions ≤ 1
    unfolding chosen observed
    one-start d keyed =
        start_count-plan k (observed s.cards v) now.instant _ settings.config d keyed

-- What a reactor sees while the card `k` gets nowhere: each readable board shows it, with no pick
-- and no unblock from `since` on, and lists every card once.
abbrev pub Stuck : String → ℕ → Observation → Type 0
Stuck k since (Observation.source_error class reason) = Unit
Stuck k since (Observation.sight v) =
    IsDict v.views
    × IsKeyed v.views
    × ((view : View) × (lookup k v.views ≡ some view) × IsFresh since view)

fail-cards :
    (s : State) (class : ErrorClass) (reason : Option String) (now : Moment)
    → ((fail s class reason now).state.cards ≡ s.cards) × ((fail s class reason now).lines ≡ [])
unfolding fail record_health
fail-cards s class reason now = ground arith

source_error-cards :
    (settings : Settings) (apply : Action → Outcome) (judge : Bool) (s : State) (class : ErrorClass)
    (reason : Option String) (now : Moment)
    → let r = pass settings apply judge s (Observation.source_error class reason) now in
      (r.state.cards ≡ s.cards) × (r.lines ≡ [])
unfolding pass
source_error-cards settings apply judge s class reason now = fail-cards s class reason now

one_more : (n m most : ℕ) → n ≤ 1 → (0 < n → m < most) → m ≤ most → m + n ≤ most
one_more zero m most once few h = omega arith
one_more (suc n) m most once few h = let less = few (omega arith) in omega arith

Stuck-pass :
    (k : String) (since : ℕ) (settings : Settings) (apply : Action → Outcome) (judge : Bool)
    (s : State) (o : Observation) (now : Moment)
    → IsCardKey k
    → Stuck k since o
    → since ≤ now.instant
    → Later since (last_start_of s k)
    → starts_of s k ≤ settings.config.attempts
    → let r = pass settings apply judge s o now in
      (starts_of r.state k ≡ starts_of s k + card_starts k r.lines)
      × (starts_of r.state k ≤ settings.config.attempts)
      × Later since (last_start_of r.state k)
Stuck-pass k since settings apply judge s (Observation.source_error class reason) now card stuck t l
      h =
    let (same, no_lines) = source_error-cards settings apply judge s class reason now in
    let starts = ap (λ d. or_else (or_else (lookup k d) no_memory).starts 0) same in
    (
      omega (arith, starts, ap (card_starts k) no_lines),
      omega (arith, starts),
      subst (λ d. Later since (or_else (lookup k d) no_memory).last_start) (sym same) l,
    )
Stuck-pass k since settings apply judge s (Observation.sight v) now card
      (d, keyed, (view, found, fresh)) t l h =
    let (count, asked) = pass-Paced k card since settings apply judge s v now in
    let kept = settled-fresh k card since settings apply judge s v now view found fresh l in
    let same = ap (λ (m : Option Memory). or_else (or_else m no_memory).starts 0) kept in
    let once = one-start k card since settings apply judge s v now d keyed in
    let few = few-before k card since settings apply judge s v now in
    (
      omega (arith, count, same),
      omega (arith, count, same, asked, one_more _ _ _ once few (omega (arith, same))),
      pass-Later k card since settings apply judge s v now t (
          subst (λ (m : Option Memory). Later since (or_else m no_memory).last_start) (sym kept) l),
    )

-- The starts of a card over some passes.
abbrev pub total_starts : String → Settings → State → List Turn → ℕ
total_starts k settings s [] = 0
total_starts k settings s (t ∷ ts) =
    card_starts k (turn settings s t).lines + total_starts k settings (turn settings s t).state ts

-- No endless start loop: from an instant on, while a card reaches no pick and is not unblocked,
-- all the passes together start it at most `attempts` times, counting the starts that the memory
-- holds already, whatever systemd answers. Picks and unblocks before that instant do not matter;
-- the card's last start in the memory, if any, and the clocks of the passes are not before it. The
-- card's id is no trash key, each readable board shows the card and lists every card once, and the
-- memory holds no more than `attempts` starts of it at first.
pub turns-attempts :
    (k : String) (since : ℕ) (settings : Settings) (s : State) (ts : List Turn)
    → IsCardKey k
    → All (λ t. Stuck k since t.observation × (since ≤ t.now.instant)) ts
    → Later since (last_start_of s k)
    → starts_of s k ≤ settings.config.attempts
    → (starts_of (turns settings s ts) k ≡ starts_of s k + total_starts k settings s ts)
      × (starts_of s k + total_starts k settings s ts ≤ settings.config.attempts)
turns-attempts k since settings s [] card stuck l h = (omega arith, omega arith)
turns-attempts k since settings s (t ∷ ts) card stuck l h =
    let (count, fit, later) =
      Stuck-pass k since settings t.apply t.judge s t.observation t.now card stuck.0.0 stuck.0.1 l
        h in
    let (total, within) =
      turns-attempts k since settings (turn settings s t).state ts card stuck.1 later fit in
    (omega (arith, count, total), omega (arith, count, within))
