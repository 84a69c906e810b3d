-- ===== src/Plugin/Counted.antt =====
-- How the plugin numbers events, and that a workflow gets back what the event had.
use nimble_xchain_contracts.Prelude.{ℕ, ◌+◌, ◌≡◌, refl, ap, ◌∙◌, List, [], ◌∷◌}
use nimble_xchain_contracts.Js.{Text, ok}
use nimble_xchain_contracts.Plugin.{
  Bytes, WorkflowPayload, StagingArea, or_zero, increment, Codec, consume_event, consume_events,
  parse_workflow_payload,
}

-- The payloads of events that are numbered from a count on.
unfoldable pub numbered : (Bytes → Text) → ℕ → List Bytes → List WorkflowPayload
numbered to_base64 n [] = []
numbered to_base64 n (vaa ∷ vaas) =
    record { vaa = to_base64 vaa; count = n + 1 } ∷ numbered to_base64 (n + 1) vaas

module _ {Vaa : Type 0} (c : Codec Vaa) (area : StagingArea) where
  -- Events that are consumed one after the other are numbered without a gap, from the stored counter
  -- on, or from 1 where there is none; each payload has the event's own bytes.
  consume_events-numbered :
      (vaas : List Bytes) (s : area.State)
      → (consume_events c area vaas s).0 ≡ numbered c.to_base64 (or_zero (area.counter s)) vaas
  unfolding consume_events consume_event numbered increment
  consume_events-numbered [] s = refl
  consume_events-numbered (vaa ∷ vaas) s =
      let s' = (area.with_key increment s).1 in
      let count = area.returns increment s in
      let stored = ap or_zero (area.stores increment s) in
      let rest = consume_events-numbered vaas s' in
      rw count (
        ap
          (λ payloads.
            record { vaa = c.to_base64 vaa; count = or_zero (area.counter s) + 1 } ∷ payloads)
          (rest ∙ ap (λ n. numbered c.to_base64 n vaas) stored))

  -- A workflow gets back the bytes of its event, which the SDK parses again, and its count: the one
  -- after the stored counter.
  consume_event-parse :
      (vaa_bytes : Bytes) (s : area.State) (vaa : Vaa)
      → c.parse_vaa vaa_bytes ≡ ok vaa
      → parse_workflow_payload c (consume_event c area vaa_bytes s).0
        ≡ ok (record { vaa = vaa; vaa_bytes = vaa_bytes; count = or_zero (area.counter s) + 1 })
  unfolding parse_workflow_payload consume_event increment
  consume_event-parse vaa_bytes s vaa parses =
      rw (c.decodes vaa_bytes, parses, area.returns increment s) refl
