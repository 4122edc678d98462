-- ===== src/Sessions/Ownership.antt =====
-- Who may run a session: what a goroutine holds, and how that agrees with the maps of SignalManager.
use ninjabot.Prelude.{
  ℕ, suc, ◌<◌, ◌≡◌, ◌≢◌, String, false, Option, none, some, contains, arith, str_eq_iff,
}
use ninjabot.Prelude.Map.{lookup, insert, erase, lookup-insert, lookup-erase}
use ninjabot.Sessions.Manager.{SignalManager, cancel}
use ninjabot.Sessions.Threads.{update}

-- What a goroutine holds: the reservation of a session, a running bot, or a context it will cancel.
pub data Claim : Type 0 where
  nothing : Claim
  reserves : String → ℕ → Claim
  lives : String → ℕ → Claim
  spends : ℕ → Claim

abbrev pub context : Claim → Option ℕ
context nothing = none
context (reserves id ctx) = some ctx
context (lives id ctx) = some ctx
context (spends ctx) = some ctx

module _ {D : Type 0} where
  -- Every context is held by the goroutine that made it, `home`, or by none; the entries of the
  -- maps are those of the reservations and of the running bots whose context is not cancelled; and
  -- no session has entries in both.
  pub record IsOwned (m : SignalManager D) (held : ℕ → Claim) : Type 0 where
    pub home : ℕ → ℕ
    pub at_home :
        (t ctx : ℕ) → context (held t) ≡ some ctx → (home ctx ≡ t) × (ctx < m.next_context)
    pub reserved :
        (t : ℕ) (id : String) (ctx : ℕ) → held t ≡ reserves id ctx → lookup id m.starting ≡ some ctx
    pub reserving :
        (id : String) (ctx : ℕ)
        → lookup id m.starting ≡ some ctx
        → held (home ctx) ≡ reserves id ctx
    pub registered :
        (t : ℕ) (id : String) (ctx : ℕ)
        → held t ≡ lives id ctx
        → contains m.cancelled ctx ≡ false
        → lookup id m.bots ≡ some ctx
    pub running :
        (id : String) (ctx : ℕ) → lookup id m.bots ≡ some ctx → held (home ctx) ≡ lives id ctx
    pub alive :
        (id : String) (ctx : ℕ) → lookup id m.bots ≡ some ctx → contains m.cancelled ctx ≡ false
    pub apart : (id : String) (ctx : ℕ) → lookup id m.bots ≡ some ctx → lookup id m.starting ≡ none

  module _ (m : SignalManager D) (held : ℕ → Claim) (v : IsOwned m held) (t : ℕ) where
    -- Whatever else changes, the claim is kept.
    pub keep-IsOwned :
        (c : Claim) (db : D) → held t ≡ c → IsOwned (record m { db = db }) (update held t c)
    keep-IsOwned c db e = record {
      home = v.home;
      at_home = λ u ctx h. ground (arith, v.at_home u ctx);
      reserved = λ u id ctx h. ground (arith, v.reserved u id ctx);
      reserving = λ id ctx h. ground (arith, v.reserving id ctx h);
      registered = λ u id ctx h. ground (arith, v.registered u id ctx);
      running = λ id ctx h. ground (arith, v.running id ctx h);
      alive = v.alive;
      apart = v.apart;
    }

    -- A goroutine that holds no session and cancels its own context, or nothing.
    pub forget-IsOwned : context (held t) ≡ none → IsOwned m (update held t nothing)
    forget-IsOwned e = record {
      home = v.home;
      at_home = λ u ctx h. ground (arith, v.at_home u ctx);
      reserved = λ u id ctx h. ground (arith, v.reserved u id ctx);
      reserving = λ id ctx h. ground (arith, v.reserving id ctx h);
      registered = λ u id ctx h. ground (arith, v.registered u id ctx);
      running = λ id ctx h. ground (arith, v.running id ctx h);
      alive = v.alive;
      apart = v.apart;
    }

    pub reserve-IsOwned :
        (id : String)
        → context (held t) ≡ none
        → lookup id m.bots ≡ none
        → lookup id m.starting ≡ none
        → IsOwned
            (record m {
              starting = insert id m.next_context m.starting;
              next_context = suc m.next_context;
            })
            (update held t (reserves id m.next_context))
    reserve-IsOwned id e no_bot no_start = record {
      home = update v.home m.next_context t;
      at_home = λ u ctx h. ground (arith, v.at_home u ctx);
      reserved = λ u j ctx h. ground (
        arith,
        v.reserved u j ctx,
        v.at_home u ctx,
        lookup-insert id j m.next_context m.starting,
        str_eq_iff id j,
      );
      reserving = λ j ctx h. ground (
        arith,
        v.reserving j ctx,
        v.at_home (v.home ctx) ctx,
        lookup-insert id j m.next_context m.starting,
        str_eq_iff id j,
      );
      registered = λ u j ctx h. ground (arith, v.registered u j ctx);
      running = λ j ctx h. ground (arith, v.running j ctx h, v.at_home (v.home ctx) ctx);
      alive = v.alive;
      apart = λ j ctx h.
          ground
            (arith, v.apart j ctx h, lookup-insert id j m.next_context m.starting, str_eq_iff id j);
    }

    pub drop-IsOwned :
        (id : String) (ctx : ℕ)
        → held t ≡ reserves id ctx
        → IsOwned (record m { starting = erase id m.starting }) (update held t (spends ctx))
    drop-IsOwned id c e = record {
      home = v.home;
      at_home = λ u ctx h. ground (arith, v.at_home u ctx);
      reserved = λ u j ctx h. ground (
        arith,
        v.reserved u j ctx,
        v.reserved t id c e,
        v.at_home u ctx,
        v.at_home t ctx,
        lookup-erase id j m.starting,
        str_eq_iff id j,
      );
      reserving = λ j ctx h.
          ground (arith, v.reserving j ctx, lookup-erase id j m.starting, str_eq_iff id j);
      registered = λ u j ctx h. ground (arith, v.registered u j ctx);
      running = λ j ctx h. ground (arith, v.running j ctx h);
      alive = v.alive;
      apart =
          λ j ctx h. ground (arith, v.apart j ctx h, lookup-erase id j m.starting, str_eq_iff id j);
    }

    pub register-IsOwned :
        (id : String) (ctx : ℕ)
        → held t ≡ reserves id ctx
        → contains m.cancelled ctx ≡ false
        → IsOwned
            (record m { starting = erase id m.starting; bots = insert id ctx m.bots })
            (update held t (lives id ctx))
    register-IsOwned id c e live = record {
      home = v.home;
      at_home = λ u ctx h. ground (arith, v.at_home u ctx);
      reserved = λ u j ctx h. ground (
        arith,
        v.reserved u j ctx,
        v.reserved t id c e,
        v.at_home u ctx,
        v.at_home t ctx,
        lookup-erase id j m.starting,
        str_eq_iff id j,
      );
      reserving = λ j ctx h.
          ground (arith, v.reserving j ctx, lookup-erase id j m.starting, str_eq_iff id j);
      registered = λ u j ctx h k. ground (
        arith,
        v.registered u j ctx,
        v.reserved t id c e,
        v.apart id ctx,
        lookup-insert id j c m.bots,
        str_eq_iff id j,
      );
      running = λ j ctx h.
          ground
            (arith, v.running j ctx, v.at_home t c, lookup-insert id j c m.bots, str_eq_iff id j);
      alive =
          λ j ctx h. ground (arith, v.alive j ctx, lookup-insert id j c m.bots, str_eq_iff id j);
      apart = λ j ctx h. ground (
        arith,
        v.apart j ctx,
        lookup-insert id j c m.bots,
        lookup-erase id j m.starting,
        str_eq_iff id j,
      );
    }

    pub leave-IsOwned :
        (id : String) (ctx : ℕ)
        → held t ≡ lives id ctx
        → lookup id m.bots ≡ some ctx
        → IsOwned (record m { bots = erase id m.bots }) (update held t (spends ctx))
    leave-IsOwned id c e there = record {
      home = v.home;
      at_home = λ u ctx h. ground (arith, v.at_home u ctx);
      reserved = λ u j ctx h. ground (arith, v.reserved u j ctx);
      reserving = λ j ctx h. ground (arith, v.reserving j ctx h);
      registered = λ u j ctx h k. ground (
        arith,
        v.registered u j ctx,
        v.at_home u ctx,
        v.at_home t ctx,
        lookup-erase id j m.bots,
        str_eq_iff id j,
      );
      running = λ j ctx h.
          ground (arith, v.running j ctx, v.at_home t c, lookup-erase id j m.bots, str_eq_iff id j);
      alive = λ j ctx h. ground (arith, v.alive j ctx, lookup-erase id j m.bots, str_eq_iff id j);
      apart = λ j ctx h. ground (arith, v.apart j ctx, lookup-erase id j m.bots, str_eq_iff id j);
    }

    -- A bot that returned after it was taken off the map.
    pub gone-IsOwned :
        (id : String) (ctx : ℕ)
        → held t ≡ lives id ctx
        → lookup id m.bots ≢ some ctx
        → IsOwned m (update held t nothing)
    gone-IsOwned id c e away = record {
      home = v.home;
      at_home = λ u ctx h. ground (arith, v.at_home u ctx);
      reserved = λ u j ctx h. ground (arith, v.reserved u j ctx);
      reserving = λ j ctx h. ground (arith, v.reserving j ctx h);
      registered = λ u j ctx h. ground (arith, v.registered u j ctx);
      running = λ j ctx h. ground (arith, v.running j ctx h, v.at_home t c);
      alive = v.alive;
      apart = v.apart;
    }

    pub cancel-IsOwned :
        (ctx : ℕ) → held t ≡ spends ctx → IsOwned (cancel ctx m) (update held t nothing)
    cancel-IsOwned c e = record {
      home = v.home;
      at_home = λ u ctx h. ground (arith, v.at_home u ctx);
      reserved = λ u j ctx h. ground (arith, v.reserved u j ctx);
      reserving = λ j ctx h. ground (arith, v.reserving j ctx h);
      registered = λ u j ctx h k. ground (arith, v.registered u j ctx);
      running = λ j ctx h. ground (arith, v.running j ctx h);
      alive = λ j ctx h. ground (arith, v.alive j ctx h, v.running j ctx h, v.at_home t c);
      apart = v.apart;
    }
