-- ===== src/Sessions/Eviction.antt =====
-- StopSession under the lock keeps the maps in agreement with the goroutines.
use ninjabot.Prelude.{ℕ, ◌≡◌, refl, String, Option, none, some, arith, str_eq_iff}
use ninjabot.Prelude.Map.{lookup, erase, lookup-erase}
use ninjabot.Sessions.Manager.{SignalManager, cancel, cancel_some, take_session}
use ninjabot.Sessions.Ownership.{Claim, IsOwned}

module _ {D : Type 0} where
  module _ (m : SignalManager D) (held : ℕ → Claim) (v : IsOwned m held) where
    -- A bot is taken off the map, and its context cancelled.
    evict-IsOwned :
        (id : String) (ctx : ℕ)
        → lookup id m.bots ≡ some ctx
        → IsOwned (cancel ctx (record m { bots = erase id m.bots })) held
    evict-IsOwned id c there = record {
      home = v.home;
      at_home = v.at_home;
      reserved = v.reserved;
      reserving = v.reserving;
      registered = λ u j ctx h k.
          ground (arith, v.registered u j ctx h, lookup-erase id j m.bots, str_eq_iff id j);
      running =
          λ j ctx h. ground (arith, v.running j ctx, lookup-erase id j m.bots, str_eq_iff id j);
      alive = λ j ctx h. ground (
        arith,
        v.alive j ctx,
        v.running j ctx,
        v.running id c there,
        lookup-erase id j m.bots,
        str_eq_iff id j,
      );
      apart = λ j ctx h. ground (arith, v.apart j ctx, lookup-erase id j m.bots, str_eq_iff id j);
    }

    -- No bot, and nothing to take.
    spare-IsOwned :
        (id : String) → lookup id m.bots ≡ none → IsOwned (record m { bots = erase id m.bots }) held
    spare-IsOwned id away = record {
      home = v.home;
      at_home = v.at_home;
      reserved = v.reserved;
      reserving = v.reserving;
      registered = λ u j ctx h k.
          ground (arith, v.registered u j ctx h k, lookup-erase id j m.bots, str_eq_iff id j);
      running =
          λ j ctx h. ground (arith, v.running j ctx, lookup-erase id j m.bots, str_eq_iff id j);
      alive = λ j ctx h. ground (arith, v.alive j ctx, lookup-erase id j m.bots, str_eq_iff id j);
      apart = λ j ctx h. ground (arith, v.apart j ctx, lookup-erase id j m.bots, str_eq_iff id j);
    }

    -- The context of a session that is starting is cancelled.
    interrupt-IsOwned :
        (id : String) (ctx : ℕ) → lookup id m.starting ≡ some ctx → IsOwned (cancel ctx m) held
    interrupt-IsOwned id c there = record {
      home = v.home;
      at_home = v.at_home;
      reserved = v.reserved;
      reserving = v.reserving;
      registered = λ u j ctx h k. ground (arith, v.registered u j ctx h);
      running = v.running;
      alive = λ j ctx h. ground (arith, v.alive j ctx h, v.running j ctx h, v.reserving id c there);
      apart = v.apart;
    }

  cancel_found-IsOwned :
      (m : SignalManager D) (held : ℕ → Claim) (id : String) (o : Option ℕ)
      → lookup id m.starting ≡ o
      → IsOwned m held
      → IsOwned (cancel_some o m) held
  cancel_found-IsOwned m held id none e v = v
  cancel_found-IsOwned m held id (some c) e v = interrupt-IsOwned m held v id c e

  evict_found-IsOwned :
      (m : SignalManager D) (held : ℕ → Claim) (id : String) (o : Option ℕ)
      → lookup id m.bots ≡ o
      → IsOwned m held
      → IsOwned (cancel_some o (record m { bots = erase id m.bots })) held
  evict_found-IsOwned m held id none e v = spare-IsOwned m held v id e
  evict_found-IsOwned m held id (some c) e v = evict-IsOwned m held v id c e

  pub take_session-IsOwned :
      (m : SignalManager D) (held : ℕ → Claim) (id : String)
      → IsOwned m held
      → IsOwned (take_session id m).1 held
  unfolding take_session
  take_session-IsOwned m held id v =
      let m1 = cancel_some (lookup id m.bots) (record m { bots = erase id m.bots }) in
      cancel_found-IsOwned m1 held id (lookup id m1.starting) refl
        (evict_found-IsOwned m held id (lookup id m.bots) refl v)
