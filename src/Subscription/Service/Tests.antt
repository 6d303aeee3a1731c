-- ===== src/Subscription/Service/Tests.antt =====
-- A registration in a scripted world, and the theorems at it.
use bug_bounty_escrow.Prelude.{
  ◌+◌, ◌*◌, ◌/◌, min, true, [], ◌∷◌, head?, leb, if◌then◌else◌, ◌≡◌, refl, arith,
}
use bug_bounty_escrow.Effect.{other, returned, raised, fresh, Session, Environment}
use bug_bounty_escrow.Subscription.{
  Answer, now, sleep, random_uuid, prepare, reconcile, is_ready, has_test, list_intents,
}
use bug_bounty_escrow.Subscription.Service.{
  Config, wait_interval_ms, sync_lease_ms, poll, poll_for, look_for_test, register, ensure,
}
use bug_bounty_escrow.Effect.{unavailable}
use bug_bounty_escrow.Subscription.Service.Rounds.{Advances, ShowsFrom, loops-End}
use bug_bounty_escrow.Subscription.Service.Calls.{IsTidy, IsEnded}
use bug_bounty_escrow.Subscription.Service.Leases.{ensure-IsTidy}

abbrev config : Config
config = record {
  enabled = true;
  subscription_ids = (b'a' ∷ b'1' ∷ []) ∷ [];
  request_timeout_ms = 10000;
}

-- A clock of a tenth of a second for each call, in which only short pauses succeed.
abbrev world : Environment Answer
world n now = returned (100 * n)
world n (sleep w) = if leb w 100 then returned tt else raised (other "interrupted")
world n random_uuid = returned "lease"
world n (prepare _ _ _ _) =
    returned (record { claimed = true; revision = 4; addresses = "0x0a" ∷ []; domains = 26 ∷ [] })
world n (reconcile _ addresses domains) =
    returned (record { addresses = addresses; domains = domains })
world n (is_ready _ _) = returned true
world n (has_test _ _) = returned true
world n list_intents = returned []
world n _ = returned tt

world-Advances : Advances world
world-Advances n m k a b w lt lt' e slept e' = ground arith

abbrev later : Session Answer
later = record { count = 3; calls = [] }

later-ShowsFrom : ShowsFrom world 300 3
later-ShowsFrom m a le e = ground arith

loops-End_example :
    (poll world
        (2 + sync_lease_ms 10000 * 2 / wait_interval_ms + 5)
        (300 + sync_lease_ms 10000 * 2)
        (unavailable "timeout")
        (register world config "intent" (b'a' ∷ []))
        later
      ≡ poll_for world 300
          (sync_lease_ms 10000 * 2)
          (unavailable "timeout")
          (register world config "intent" (b'a' ∷ []))
          later)
    × (poll world
          (2 + min 10000 15000 / wait_interval_ms + 5)
          (300 + min 10000 15000)
          (unavailable "timeout")
          (look_for_test world (b'a' ∷ []) 200)
          later
        ≡ poll_for world 300
            (min 10000 15000)
            (unavailable "timeout")
            (look_for_test world (b'a' ∷ []) 200)
            later)
loops-End_example =
    loops-End world config "intent" (b'a' ∷ []) 300 200 5 (unavailable "timeout") later
      world-Advances later-ShowsFrom

ensure-IsTidy_example :
    IsTidy (ensure world config "intent" (fresh Answer)).1.calls
    × IsEnded "intent"
        (head? config.subscription_ids)
        (ensure world config "intent" (fresh Answer)).0
        (ensure world config "intent" (fresh Answer)).1.calls
ensure-IsTidy_example = ensure-IsTidy world config "intent" (fresh Answer) refl tt
