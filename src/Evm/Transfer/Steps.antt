-- ===== src/Evm/Transfer/Steps.antt =====
-- What has happened when a transfer returns.
use nimble_xchain_contracts.Prelude.{
  ℕ, ◌<◌, ◌∙◌, sym, List, ◌∷◌, ◌≡◌, refl, ap, arith, Option, none, some,
}
use nimble_xchain_contracts.Prelude.{inl, inr}
use mathlib.Core.Path.{subst}
use nimble_xchain_contracts.Js.{Text, Error, Outcome, ok, throws}
use nimble_xchain_contracts.Exec.{lift, pure, ◌>>=◌}
use nimble_xchain_contracts.Exec.Rules.{bind_returned}
use nimble_xchain_contracts.Evm.Networks.{Info, info_named}
use nimble_xchain_contracts.Evm.Relay.{
  Bytes, Receipt, Override, World, ask, signed_vaa, RelayerInfo, redeem_call, nimble_relay,
}
use nimble_xchain_contracts.Evm.Relay.Retries.{Failed, Retried, nimble_relay-Retried}
use nimble_xchain_contracts.Evm.Transfer.{
  Services, Transfer, get_override, send, redeem_on, after_send, transfer_token, result_of,
  fetch_vaa, finish, vaa_call,
}
use nimble_xchain_contracts.Evm.Transfer.Sending.{Sending, send-Sent}

module _ (s : Services) (buffer : List (Text × Info)) where
  abbrev relayer_info : Info → Bytes → Override → RelayerInfo
  relayer_info target vaa_bytes override = record {
    target_nimble_xchain = target.nimble_xchain;
    target_relayer_wallet = target.relayer_wallet;
    vaa_bytes = vaa_bytes;
    override = override;
  }

  -- A redemption that succeeded, from one world to another, after fewer than 20 failures.
  pub record Redeemed (name : Text) (target : Info) (vaa_bytes : Bytes) (w w' : World)
      (receipt : Receipt) : Type 0 where
    pub override : Override
    pub start : World
    pub tries : ℕ
    pub last : World
    pub overridden : get_override s buffer name w ≡ (ok override, start)
    pub few : tries < 20
    pub failed_tries :
        Failed s.redeems (redeem_call (relayer_info target vaa_bytes override)) tries start last
    pub success : s.redeems last (redeem_call (relayer_info target vaa_bytes override)) ≡ ok receipt
    pub ends : w' ≡ redeem_call (relayer_info target vaa_bytes override) ∷ last

  -- A transfer that was sent, whose message was fetched by the receipt's sequence number from the
  -- bridge of the source chain, and was redeemed on the target chain.
  pub record Completed (t : Transfer) (w w' : World) (decoded : Text) (receipt : Receipt)
      : Type 0 where
    pub source : Info
    pub target : Info
    pub sent : Receipt
    pub after_sending : World
    pub sequence : Text
    pub vaa_bytes : Bytes
    pub source_named : info_named buffer t.src_chain_name ≡ ok source
    pub target_named : info_named buffer t.target_chain_name ≡ ok target
    pub sends : Sending s buffer t source target w after_sending (ok sent)
    pub numbered : s.parse_sequence_from_log_eth sent source.wormhole_address ≡ ok sequence
    pub fetched :
        s.vaas after_sending
          (signed_vaa source.chain_id (s.get_emitter_address_eth source.bridge_address) sequence)
        ≡ ok vaa_bytes
    pub redeemed :
        Redeemed t.target_chain_name target vaa_bytes
          (signed_vaa source.chain_id (s.get_emitter_address_eth source.bridge_address) sequence
            ∷ after_sending)
          w'
          receipt
    pub decodes : decoded ≡ s.decode vaa_bytes

  redeem_on-Redeemed :
      (name : Text) (target : Info) (vaa_bytes : Bytes) (w w' : World) (o : Option Receipt)
      → redeem_on s buffer name target vaa_bytes w ≡ (ok o, w')
      → (receipt : Receipt) × (o ≡ some receipt) × Redeemed name target vaa_bytes w w' receipt
  unfolding redeem_on
  redeem_on-Redeemed name target vaa_bytes w w' o h =
      let (override, start, relays, overridden) =
        bind_returned _ (get_override s buffer name) w h in
      found override start overridden
        (nimble_relay-Retried s.retry s.redeems (relayer_info target vaa_bytes override) start)
        relays
    where
      found :
          (override : Override) (start : World)
          → get_override s buffer name w ≡ (ok override, start)
          → Retried s.redeems
              (redeem_call (relayer_info target vaa_bytes override))
              20
              start
              (nimble_relay s.retry s.redeems (relayer_info target vaa_bytes override) start)
          → nimble_relay s.retry s.redeems (relayer_info target vaa_bytes override) start
            ≡ (ok o, w')
          → (receipt : Receipt) × (o ≡ some receipt) × Redeemed name target vaa_bytes w w' receipt
      found override start overridden (inr (w1, e, before, is)) relays = ground (arith, is, relays)
      found override start overridden (inl (tries, w1, receipt, few, before, success, is)) relays =
          (
            receipt,
            ground (arith, is, relays),
            record {
              override = override;
              start = start;
              tries = tries;
              last = w1;
              overridden = overridden;
              few = few;
              failed_tries = before;
              success = success;
              ends = ground (arith, is, relays);
            },
          )

  fetch_vaa_returned :
      (source : Info) (sent : Receipt) (w w' : World) (vaa_bytes : Bytes)
      → fetch_vaa s buffer source sent w ≡ (ok vaa_bytes, w')
      → (sequence : Text) × (s.parse_sequence_from_log_eth sent source.wormhole_address
          ≡ ok sequence)
        × (s.vaas w (vaa_call s buffer source sequence) ≡ ok vaa_bytes)
        × (w' ≡ vaa_call s buffer source sequence ∷ w)
  unfolding fetch_vaa
  fetch_vaa_returned source sent w w' vaa_bytes h =
      let (sequence, w1, asks, numbered) =
        bind_returned (λ sequence. ask s.vaas (vaa_call s buffer source sequence))
          (lift (s.parse_sequence_from_log_eth sent source.wormhole_address)) w h in
      (
        sequence,
        ground (arith, numbered),
        ground (arith, numbered, asks),
        ground (arith, numbered, asks),
      )

  finish_returned :
      (t : Transfer) (target : Info) (vaa_bytes : Bytes) (w w' : World)
      (o : Option (Text × Receipt))
      → finish s buffer t target vaa_bytes w ≡ (ok o, w')
      → (receipt : Receipt) × (o ≡ some (s.decode vaa_bytes, receipt))
        × Redeemed t.target_chain_name target vaa_bytes w w' receipt
  unfolding finish
  finish_returned t target vaa_bytes w w' o h =
      let (redeemed, w1, ends, relays) =
        bind_returned (λ redeemed. pure (result_of s buffer vaa_bytes redeemed))
          (redeem_on s buffer t.target_chain_name target vaa_bytes) w h in
      let (receipt, is_receipt, done) =
        redeem_on-Redeemed t.target_chain_name target vaa_bytes w w1 redeemed relays in
      let same : w1 ≡ w' = ap (λ p. p.1) ends in
      (receipt, ground (arith, is_receipt, ends), rw same at done)

  module _ (t : Transfer) (w w' : World) where
    -- The two ways in which a transfer returns: null, where sending failed and nothing was asked
    -- after that, or a redeemed transfer.
    abbrev pub Returned : Option (Text × Receipt) → Type 0
    Returned none =
        (source : Info) × (target : Info) × (info_named buffer t.src_chain_name ≡ ok source)
        × (info_named buffer t.target_chain_name ≡ ok target)
        × (e : Error) × Sending s buffer t source target w w' (throws e)
    Returned (some (decoded, receipt)) = Completed t w w' decoded receipt

    module _ (source target : Info) (source_named : info_named buffer t.src_chain_name ≡ ok source)
        (target_named : info_named buffer t.target_chain_name ≡ ok target) where
      after_send-Returned :
          (sent : Option Receipt) (w1 : World) (o : Option (Text × Receipt))
          → send s buffer t source target w ≡ (ok sent, w1)
          → after_send s buffer t source target sent w1 ≡ (ok o, w')
          → Returned o
      unfolding after_send
      after_send-Returned none w1 none sends h =
          let same : w1 ≡ w' = ap (λ p. p.1) h in
          let (e, refused) = send-Sent s buffer t source target w w1 none sends in
          (
            source,
            target,
            source_named,
            target_named,
            e,
            subst (λ x. Sending s buffer t source target w x (throws e)) same refused,
          )
      after_send-Returned none w1 (some p) sends h = ground arith
      after_send-Returned (some sent) w1 o sends h =
          let (vaa_bytes, w2, finishes, fetches) =
            bind_returned (finish s buffer t target) (fetch_vaa s buffer source sent) w1 h in
          let (sequence, numbered, fetched, same) =
            fetch_vaa_returned source sent w1 w2 vaa_bytes fetches in
          let (receipt, is_receipt, redeemed) =
            finish_returned t target vaa_bytes w2 w' o finishes in
          rw is_receipt (record {
            source = source;
            target = target;
            sent = sent;
            after_sending = w1;
            sequence = sequence;
            vaa_bytes = vaa_bytes;
            source_named = source_named;
            target_named = target_named;
            sends = send-Sent s buffer t source target w w1 (some sent) sends;
            numbered = numbered;
            fetched = fetched;
            redeemed = rw same at redeemed;
            decodes = refl;
          })

    -- A transfer that returns has asked the source chain's contract to send the amount, in the
    -- token's units, to the target wallet on the target chain. It has returned null, and then this
    -- sending was refused and nothing was asked after it; or the guardians were asked for the
    -- message of the source chain's bridge with the sequence number in the receipt of the sending,
    -- and what they gave was redeemed on the target chain after fewer than 20 failed tries, and the
    -- result is the decoded VAA and the receipt of the redemption.
    pub transfer_token-Returned :
        (o : Option (Text × Receipt)) → transfer_token s buffer t w ≡ (ok o, w') → Returned o
    unfolding transfer_token
    transfer_token-Returned o h =
        let (source, w1, h1, at_source) =
          bind_returned after_source (lift (info_named buffer t.src_chain_name)) w h in
        let (target, w2, h2, at_target) =
          bind_returned (after_target source) (lift (info_named buffer t.target_chain_name)) w1
            h1 in
        let (sent, w3, h3, sends) =
          bind_returned (after_send s buffer t source target) (send s buffer t source target) w2
            h2 in
        let same : w ≡ w2 = ap (λ p. p.1) at_source ∙ ap (λ p. p.1) at_target in
        after_send-Returned source target (ap (λ p. p.0) at_source) (ap (λ p. p.0) at_target) sent
          w3 o (subst (λ x. send s buffer t source target x ≡ (ok sent, w3)) (sym same) sends) h3
      where
        after_target : Info → Info → World → Outcome (Option (Text × Receipt)) × World
        after_target source target =
            send s buffer t source target >>= after_send s buffer t source target

        after_source : Info → World → Outcome (Option (Text × Receipt)) × World
        after_source source = lift (info_named buffer t.target_chain_name) >>= after_target source
