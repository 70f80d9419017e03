-- ===== src/Tests/Debugger.antt =====
-- The theorem on the channel to the debugger, at the end of the block that refunds the payment of the
-- sample chain.
use private_currency.Consistency.Notified.{IsNotified, on_after_commit-IsNotified}
use private_currency.Crypto.Sample.{suite, suite-IsLawful}
use private_currency.Debug.Channel.{Channel}
use private_currency.Exonum.Sample.{node-IsLawful}
use private_currency.Prelude.{refl, [], arith}
use private_currency.Tests.{paid_at, due-Reachable, room_at}
use private_currency.Tests.Owners.{probe}

abbrev channel : Channel suite
channel = record { events = []; room = 3 }

on_after_commit-IsNotified_example :
    IsNotified suite-IsLawful node-IsLawful probe (paid_at 7) channel
on_after_commit-IsNotified_example =
    on_after_commit-IsNotified suite-IsLawful node-IsLawful probe (paid_at 7) channel due-Reachable
      (room_at 7 (omega arith)) refl
