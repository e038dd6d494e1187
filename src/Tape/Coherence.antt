-- ===== src/Tape/Coherence.antt =====
-- The engine's views agree with the tapes through any calls
-- (packages/brewva-runtime/src/tape/replay-engine.ts).
use pi_roaster.Base.{
  ℕ, String, true, false, Option, none, some, List, [], ◌∷◌, ◌++◌, ◌≡◌, refl, sym, ◌∙◌, ap, subst,
  inl, inr, Bool-cases, Option-cases, ◌==◌, string_eq, if◌then◌else◌, or_else, eq_iff, arith,
  nat_eq,
}
use pi_roaster.Base.Dict
use pi_roaster.Base.Dict.{Dict, get-set, get-delete}
use pi_roaster.Tape.View.{Event, View, apply_event, build_view}
use pi_roaster.Tape.Engine.{
  World, events_of, replay, is_latest, observe_event, invalidate, record_event,
}
use pi_roaster.Tape.Equivalence.{
  retime, build_view-append, build_view-latest, apply_event-retime, last_id,
}
use pi_roaster.Tape.Agreement.{
  CoherentAt, IsCoherent, change-IsCoherent, get-set_other, get-set_same, replay-view,
  replay-IsCoherent, invalidate-IsCoherent,
}

-- The tapes after an event is appended.
abbrev appended : String → Event → World → World
appended session e w = record w { tapes = Dict.set session (events_of session w ++ e ∷ []) w.tapes }

events_of-appended :
    (session : String) (e : Event) (w : World)
    → events_of session (appended session e w) ≡ events_of session w ++ e ∷ []
events_of-appended session e w =
    ap (λ o. or_else o []) (get-set_same session (events_of session w ++ e ∷ []) w.tapes)

events_of-appended_other :
    (session s : String) (e : Event) (w : World)
    → (session == s) ≡ false
    → events_of s (appended session e w) ≡ events_of s w
events_of-appended_other session s e w miss =
    ap (λ o. or_else o []) (get-set_other session s (events_of session w ++ e ∷ []) w.tapes miss)

is_latest_iff :
    (latest : Option String) (id : String) → is_latest latest id ≡ true → latest ≡ some id
is_latest_iff none id h = absurd (ground arith)
is_latest_iff (some a) id h = ap some ((eq_iff a id).0 h)

-- An event is fresh if the last one of its session's tape has another id.
abbrev pub IsFresh : String → Event → World → Type 0
IsFresh session e w = ¬ (last_id (events_of session w) ≡ some e.id)

-- Of a fresh event, the kept view becomes the view of the longer tape.
applied-view :
    (turn : ℕ) (session : String) (e : Event) (v : View) (w : World)
    → retime 0 v ≡ build_view 0 (events_of session w)
    → retime 0 (apply_event turn v e) ≡ build_view 0 (events_of session (appended session e w))
applied-view turn session e v w h =
    apply_event-retime 0 turn v e
    ∙ ap (λ q. apply_event 0 q e) h
    ∙ sym (build_view-append 0 (events_of session w) e)
    ∙ ap (build_view 0) (sym (events_of-appended session e w))

not_latest :
    (session : String) (e : Event) (v : View) (w : World)
    → retime 0 v ≡ build_view 0 (events_of session w)
    → IsFresh session e w
    → is_latest v.latest_event_id e.id ≡ false
not_latest session e v w h fresh = elim (Bool-cases (is_latest v.latest_event_id e.id)) [
  | inl same ↦ absurd (
      fresh (
        sym (build_view-latest 0 (events_of session w))
        ∙ ap (λ (q : View). q.latest_event_id) (sym h)
        ∙ is_latest_iff v.latest_event_id e.id same))
  | inr differs ↦ differs
]

record_event-IsCoherent :
    (turn : ℕ) (session : String) (e : Event) (w : World)
    → IsFresh session e w
    → IsCoherent w
    → IsCoherent (record_event turn session e w)
unfolding record_event observe_event
record_event-IsCoherent turn session e w fresh h = elim (Option-cases (Dict.get session w.views)) [
  | inl missing ↦
      rw (missing, observe_event)
        (change-IsCoherent session w (appended session e w) (λ s miss. refl)
          (λ s miss. events_of-appended_other session s e w miss) (rw missing tt) h)
  | inr (v, found) ↦
      let kept = subst (λ o. CoherentAt o (events_of session w)) found (h session) in
      rw (found, observe_event)
        (rw (not_latest session e v w kept fresh, if◌then◌else◌)
          (change-IsCoherent session w
            (record (appended session e w) {
              views = Dict.set session (apply_event turn v e) w.views;
            })
            (λ s miss. get-set_other session s (apply_event turn v e) w.views miss)
            (λ s miss. events_of-appended_other session s e w miss)
            (rw (get-set_same session (apply_event turn v e) w.views)
              (applied-view turn session e v w kept))
            h))
]

-- What happens to an engine, each at the turn of its time.
pub data EngineCall : Type 0 where
  recorded : ℕ → String → Event → EngineCall
  replayed : ℕ → String → EngineCall
  invalidated : String → EngineCall

unfoldable pub call_engine : EngineCall → World → World
call_engine (recorded turn session e) w = record_event turn session e w
call_engine (replayed turn session) w = (replay turn session w).0
call_engine (invalidated session) w = invalidate session w

unfoldable pub call_all : List EngineCall → World → World
call_all [] w = w
call_all (c ∷ cs) w = call_all cs (call_engine c w)

-- Each event that is recorded is fresh in its moment.
abbrev pub AreFresh : List EngineCall → World → Type 0
AreFresh [] w = Unit
AreFresh (recorded turn session e ∷ cs) w =
    IsFresh session e w × AreFresh cs (record_event turn session e w)
AreFresh (replayed turn session ∷ cs) w = AreFresh cs (replay turn session w).0
AreFresh (invalidated session ∷ cs) w = AreFresh cs (invalidate session w)

call_all-IsCoherent :
    (cs : List EngineCall) (w : World) → AreFresh cs w → IsCoherent w → IsCoherent (call_all cs w)
unfolding call_all call_engine
call_all-IsCoherent [] w fresh h = h
call_all-IsCoherent (recorded turn session e ∷ cs) w fresh h =
    call_all-IsCoherent cs (record_event turn session e w) fresh.1
      (record_event-IsCoherent turn session e w fresh.0 h)
call_all-IsCoherent (replayed turn session ∷ cs) w fresh h =
    call_all-IsCoherent cs (replay turn session w).0 fresh (replay-IsCoherent turn session w h)
call_all-IsCoherent (invalidated session ∷ cs) w fresh h =
    call_all-IsCoherent cs (invalidate session w) fresh (invalidate-IsCoherent session w h)

-- An engine that has no view yet, after any events that are recorded with an id other than that of
-- the event before them in their session, and any replays and invalidations, replays for a session
-- the view that `buildView` makes of all the events of its tape at the turn that is asked for.
pub replay-coherent :
    (cs : List EngineCall) (tapes : Dict (List Event)) (turn : ℕ) (session : String)
    → AreFresh cs (record { views = []; tapes = tapes })
    → (replay turn session (call_all cs (record { views = []; tapes = tapes }))).1
      ≡ build_view turn (events_of session (call_all cs (record { views = []; tapes = tapes })))
unfolding Dict.get
replay-coherent cs tapes turn session fresh =
    replay-view turn session _
      (call_all-IsCoherent cs (record { views = []; tapes = tapes }) fresh (λ s. tt))
