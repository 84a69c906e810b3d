-- ===== src/Evm/Transfer/Sending.antt =====
-- What a transfer asks the chain of its source for.
use nimble_xchain_contracts.Prelude.{ℕ, List, ◌∷◌, ◌++◌, ◌≡◌, refl, ap, arith, Option, none, some}
use mathlib.Core.Path.{subst}
use nimble_xchain_contracts.Js.{Text, text, Error, Outcome, ok, throws}
use nimble_xchain_contracts.Exec.{lift, pure, catch, ◌>>=◌}
use nimble_xchain_contracts.Exec.Rules.{bind_returned}
use nimble_xchain_contracts.Evm.Networks.{Info}
use nimble_xchain_contracts.Evm.Relay.{Receipt, Override, World, ask, decimals, send_tokens}
use nimble_xchain_contracts.Evm.Transfer.{Services, Transfer, get_override, send}

module _ (s : Services) (buffer : List (Text × Info)) where
  -- The sending transaction that a transfer asked for, and the chain's answer to it.
  pub record Sending (t : Transfer) (source target : Info) (w w' : World) (answer : Outcome Receipt)
      : Type 0 where
    pub places : ℕ
    pub amount : ℕ
    pub recipient : Text
    pub override : Override
    pub ready : World
    pub places_read : s.decimals_of w (decimals t.src_token_address) ≡ ok places
    pub amount_read : s.parse_units t.transfer_amount places ≡ ok amount
    pub recipient_read :
        s.try_native_to_hex_string t.target_wallet_address target.chain_id ≡ ok recipient
    pub overridden :
        get_override s buffer t.src_chain_name (decimals t.src_token_address ∷ w)
        ≡ (ok override, ready)
    pub answered :
        s.sends ready (
          send_tokens source.nimble_xchain t.src_token_address amount target.chain_id 0
            (text "0x" ++ recipient)
            override)
        ≡ answer
    pub ends :
        w'
        ≡ send_tokens source.nimble_xchain t.src_token_address amount target.chain_id 0
            (text "0x" ++ recipient)
            override
          ∷ ready

  -- A sending that gives a receipt, or null for an error.
  abbrev pub Sent : Transfer → Info → Info → World → World → Option Receipt → Type 0
  Sent t source target w w' none = (e : Error) × Sending t source target w w' (throws e)
  Sent t source target w w' (some receipt) = Sending t source target w w' (ok receipt)

  pub send-Sent :
      (t : Transfer) (source target : Info) (w w' : World) (o : Option Receipt)
      → send s buffer t source target w ≡ (ok o, w')
      → Sent t source target w w' o
  unfolding send ask
  send-Sent t source target w w' o h =
      let (places, w1, h1, e1) =
        bind_returned _ (ask s.decimals_of (decimals t.src_token_address)) w h in
      let (amount, w2, h2, e2) =
        bind_returned _ (lift (s.parse_units t.transfer_amount places)) w1 h1 in
      let (recipient, w3, h3, e3) =
        bind_returned _ (lift (s.try_native_to_hex_string t.target_wallet_address target.chain_id))
          w2 h2 in
      let (override, ready, h4, e4) =
        bind_returned _ (get_override s buffer t.src_chain_name) w3 h3 in
      let start : w3 ≡ decimals t.src_token_address ∷ w =
        ground (arith, ap (λ p. p.1) e1, ap (λ p. p.1) e2, ap (λ p. p.1) e3) in
      answered places amount recipient override ready (ap (λ p. p.0) e1) (ap (λ p. p.0) e2)
        (ap (λ p. p.0) e3)
        (subst (λ x. get_override s buffer t.src_chain_name x ≡ (ok override, ready)) start e4)
        (s.sends ready (
          send_tokens source.nimble_xchain t.src_token_address amount target.chain_id 0
            (text "0x" ++ recipient) override))
        refl o h4
    where
      answered :
          (places amount : ℕ) (recipient : Text) (override : Override) (ready : World)
          → s.decimals_of w (decimals t.src_token_address) ≡ ok places
          → s.parse_units t.transfer_amount places ≡ ok amount
          → s.try_native_to_hex_string t.target_wallet_address target.chain_id ≡ ok recipient
          → get_override s buffer t.src_chain_name (decimals t.src_token_address ∷ w)
            ≡ (ok override, ready)
          → (answer : Outcome Receipt)
          → s.sends ready (
              send_tokens source.nimble_xchain t.src_token_address amount target.chain_id 0
                (text "0x" ++ recipient)
                override)
            ≡ answer
          → (o : Option Receipt)
          → catch
              (do
                receipt ← ask s.sends (
                    send_tokens source.nimble_xchain t.src_token_address amount target.chain_id 0
                      (text "0x" ++ recipient)
                      override)
                pure (some receipt))
              (λ e. pure none)
              ready
            ≡ (ok o, w')
          → Sent t source target w w' o
      answered places amount recipient override ready r1 r2 r3 r4 (ok receipt) is none h =
          absurd (ground (arith, is, h))
      answered places amount recipient override ready r1 r2 r3 r4 (ok receipt) is (some r) h =
          record {
            places = places;
            amount = amount;
            recipient = recipient;
            override = override;
            ready = ready;
            places_read = r1;
            amount_read = r2;
            recipient_read = r3;
            overridden = r4;
            answered = ground (arith, is, h);
            ends = ground (arith, is, h);
          }
      answered places amount recipient override ready r1 r2 r3 r4 (throws e) is (some r) h =
          absurd (ground (arith, is, h))
      answered places amount recipient override ready r1 r2 r3 r4 (throws e) is none h = (
        e,
        record {
          places = places;
          amount = amount;
          recipient = recipient;
          override = override;
          ready = ready;
          places_read = r1;
          amount_read = r2;
          recipient_read = r3;
          overridden = r4;
          answered = is;
          ends = ground (arith, is, h);
        },
      )
