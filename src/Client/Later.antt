-- ===== src/Client/Later.antt =====
-- What a client of examples/clients/client.rs has followed stays true as the chain goes on.
use private_currency.Client.{Client}
use private_currency.Client.Poll.{IsSynced}
use private_currency.Consistency.Chain.{Reachable-Inv}
use private_currency.Consistency.Expiry.{is_some-some}
use private_currency.Consistency.Growth.{Later}
use private_currency.Consistency.Growth.Blocks.{Later-Grows}
use private_currency.Consistency.Replay.{IsEvent, loader, replayed, replayed-extend}
use private_currency.Crypto.Enc.{Box}
use private_currency.Crypto.Suite.{Suite}
use private_currency.Exonum.{Node, IsLawful}
use private_currency.Prelude.{
  ◌≡◌, ◌∙◌, sym, ap, some, is_some, length, take, take-append_le, length-append, All-take, arith,
}
use private_currency.Service.Chain.{Reachable}
use private_currency.Storage.State.{State, wallet, history_of}
use private_currency.Storage.Wallet.{Wallet}

module _ {S : Suite} {B : Box} {N : Node S} (L : IsLawful N) where
  -- From a reachable state on, whatever transactions are committed and blocks are ended, a wallet
  -- stays, and a client that followed the first events of its history has followed the first
  -- events of the history that there is then.
  pub IsSynced-later :
      {s s' : State N}
      → Reachable N s
      → Later s s'
      → (c : Client S B) (w : Wallet S) → wallet s c.state.verifying_key ≡ some w
      → IsSynced s c
      → ((w' : Wallet S) × (wallet s' c.state.verifying_key ≡ some w')) × IsSynced s' c
  unfolding wallet history_of
  IsSynced-later {s} {s'} r later c w found synced =
      let key = c.state.verifying_key in
      let n = length c.events in
      let g = Later-Grows L r later in
      let (more, grown) = g.appended key in
      let known = ((Reachable-Inv L r).accounts key w found).explained.events in
      let same : take n (history_of s' key) ≡ take n (history_of s key) =
        ap (take n) grown ∙ take-append_le n (history_of s key) more synced.seen in
      (
        is_some-some _ (g.wallets key (ap is_some found)),
        record {
          seen = omega (arith, synced.seen, ap length grown, length-append (history_of s key) more);
          counted = synced.counted;
          unopened = synced.unopened;
          before = synced.before;
          opens =
              synced.opens
              ∙ sym (
                  replayed-extend (loader s) (loader s') key g.messages synced.before
                    (take n (history_of s key))
                    (All-take (IsEvent (loader s) key) n (history_of s key) known))
              ∙ ap (replayed (loader s') key synced.before) (sym same);
        },
      )
