-- ===== src/Sinks/Kept.antt =====
-- app/sinks/dispatcher.py: every sink's result is kept, when the sinks have different names and each
-- reports under its own.
use naesb_edi.Base.{
  ◌≡◌, refl, ap, ◌∙◌, inl, inr, true, false, not, ◌&&◌, ◌||◌, some, List, [], ◌∷◌, map, All, Text,
  Result, ok, err, any, equal, equal_refl, Bool-cases,
}
use naesb_edi.Base.Dict.{Dict, lookup, insert, lookup-insert}
use naesb_edi.Sinks.{
  InboundMessage, SinkResult, Sink, deliver_safely, safe_result, by_sink, fan_out, durable_names,
  is_success, has_durable_success,
}

abbrev pub AreDifferent : List Sink → Type 0
AreDifferent [] = Unit
AreDifferent (s ∷ ss) = All (λ (x : Sink). equal x.name s.name ≡ false) ss × AreDifferent ss

-- The sink's results carry its name.
abbrev pub ReportsAs : Text → Result Text SinkResult → Type 0
ReportsAs name (ok r) = r.sink_name ≡ name
ReportsAs name (err e) = Unit

module _ (message : InboundMessage) where
  abbrev pub IsNamed : Sink → Type 0
  IsNamed s = ReportsAs s.name (s.deliver message)

  deliver_safely-name : (s : Sink) → IsNamed s → (deliver_safely s message).sink_name ≡ s.name
  unfolding deliver_safely
  deliver_safely-name s h = go (s.deliver message) h
    where
      go :
          (r : Result Text SinkResult)
          → ReportsAs s.name r
          → (safe_result s.name r).sink_name ≡ s.name
      go (ok r) h = h
      go (err e) h = refl

  abbrev answers : List Sink → List SinkResult
  answers = map (λ s. deliver_safely s message)

  by_sink-other :
      (name : Text) (d : Dict SinkResult) (ss : List Sink)
      → All IsNamed ss
      → All (λ (x : Sink). equal x.name name ≡ false) ss
      → lookup name (by_sink (answers ss) d) ≡ lookup name d
  unfolding by_sink
  by_sink-other name d [] n h = refl
  by_sink-other name d (s ∷ ss) n h =
      let r = deliver_safely s message in
      let apart : equal r.sink_name name ≡ false =
        ap (λ t. equal t name) (deliver_safely-name s n.0) ∙ h.0 in
      by_sink-other name (insert r.sink_name r d) ss n.1 h.1
      ∙ lookup-insert r.sink_name name r d
      ∙ rw apart refl

  by_sink-own :
      (d : Dict SinkResult) (ss : List Sink)
      → All IsNamed ss
      → AreDifferent ss
      → All
          (λ (s : Sink). lookup s.name (by_sink (answers ss) d) ≡ some (deliver_safely s message))
          ss
  unfolding by_sink
  by_sink-own d [] n h = tt
  by_sink-own d (s ∷ ss) n h =
      let r = deliver_safely s message in
      let own : equal r.sink_name s.name ≡ true =
        ap (λ t. equal t s.name) (deliver_safely-name s n.0) ∙ equal_refl s.name in
      (
        by_sink-other s.name (insert r.sink_name r d) ss n.1 h.0
            ∙ lookup-insert r.sink_name s.name r d
            ∙ rw own refl,
        by_sink-own (insert r.sink_name r d) ss n.1 h.1,
      )

  pub fan_out-keeps :
      (ss : List Sink)
      → All IsNamed ss
      → AreDifferent ss
      → All (λ (s : Sink). lookup s.name (fan_out ss message) ≡ some (deliver_safely s message)) ss
  unfolding fan_out
  fan_out-keeps ss n h = by_sink-own [] ss n h

-- Whether some durable sink took the message, read off the sinks.
any_durable :
    (results : Dict SinkResult) (message : InboundMessage) (ss : List Sink)
    → All (λ (s : Sink). lookup s.name results ≡ some (deliver_safely s message)) ss
    → any (λ name. is_success (lookup name results)) (durable_names ss)
      ≡ any (λ s. s.durable && (deliver_safely s message).ok) ss
unfolding durable_names deliver_safely
any_durable results message [] h = refl
any_durable results message (s ∷ ss) h = elim (Bool-cases s.durable) [
  | inl durable ↦ rw (durable, h.0, any_durable results message ss h.1) refl
  | inr other ↦ rw (other, any_durable results message ss h.1) refl
]

no_durable :
    (results : Dict SinkResult) (ss : List Sink)
    → has_durable_success ss results ≡ (
        not (any (λ s. s.durable) ss)
        || any (λ name. is_success (lookup name results)) (durable_names ss))
unfolding has_durable_success durable_names
no_durable results [] = refl
no_durable results (s ∷ ss) = elim (Bool-cases s.durable) [
  | inl durable ↦ rw durable refl
  | inr other ↦ rw other (no_durable results ss)
]

-- With sinks of different names that report under their own, every sink's result is found under its
-- name, and the check for a durable success passes exactly if no sink is durable or the
-- delivery to a durable one succeeded.
pub has_durable_success_lem :
    (message : InboundMessage) (sinks : List Sink)
    → All (IsNamed message) sinks
    → AreDifferent sinks
    → All
        (λ (s : Sink). lookup s.name (fan_out sinks message) ≡ some (deliver_safely s message))
        sinks
      × (has_durable_success sinks (fan_out sinks message) ≡ (
          not (any (λ s. s.durable) sinks)
          || any (λ s. s.durable && (deliver_safely s message).ok) sinks))
has_durable_success_lem message sinks n h =
    let kept = fan_out-keeps message sinks n h in
    (
      kept,
      no_durable (fan_out sinks message) sinks
          ∙ ap (λ b. not (any (λ s. s.durable) sinks) || b)
              (any_durable (fan_out sinks message) message sinks kept),
    )
