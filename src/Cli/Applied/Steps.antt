-- ===== src/Cli/Applied/Steps.antt =====
-- One call of a command, at a contract.
use nimble_xchain_contracts.Prelude.{List, ◌∷◌, ◌≡◌, refl, true, false}
use nimble_xchain_contracts.Js.{Text}
use nimble_xchain_contracts.Cli.{Contract, Call, Services}
use nimble_xchain_contracts.Cli.Applied.{answered, is_sent_to, transact, after_calls}
use nimble_xchain_contracts.Xchain.{Bytes, State}

module _ (address_of bytes_of : Text → Bytes) (s : Services) (contract : Contract) (call : Call)
    (calls : List Call) (st t : State)
    (rest : after_calls address_of bytes_of s contract calls st ≡ t) where
  pub after_calls-skip :
      is_sent_to address_of bytes_of contract call ≡ false
      → after_calls address_of bytes_of s contract (call ∷ calls) st ≡ t
  unfolding after_calls
  after_calls-skip other = rw other rest

  pub after_calls-take :
      is_sent_to address_of bytes_of contract call ≡ true
      → after_calls address_of bytes_of s contract (call ∷ calls) st
        ≡ answered (s.answers calls call) (transact address_of bytes_of call t) t
  unfolding after_calls
  after_calls-take own = rw (own, rest) refl
