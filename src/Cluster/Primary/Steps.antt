-- ===== src/Cluster/Primary/Steps.antt =====
-- What a primary goes through once it runs (src/infrastructure/cluster/cluster-primary.ts).
use nestjs_ddd.Prelude.{ℕ, ◌≡◌, true, ◌==◌, any}
use nestjs_ddd.Cluster.Primary.{StartPrimaryConfig, Primary, Signal, on_exit, begin_shutdown}

-- What can happen to a running primary: a live worker exits, or a signal comes.
pub data Step (config : StartPrimaryConfig) : Primary → Primary → Type 0 where
  exits :
      (id now now' : ℕ) (p : Primary)
      → any (λ w. w.id == id) p.live_workers ≡ true
      → Step config p (on_exit config id now now' p).0
  signals : (s : Signal) (p : Primary) → Step config p (begin_shutdown config s p).0

pub data Reach (config : StartPrimaryConfig) (p : Primary) : Primary → Type 0 where
  here : Reach config p p
  next : {q r : Primary} → Reach config p q → Step config q r → Reach config p r
