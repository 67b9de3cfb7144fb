-- ===== src/World/Foreign.antt =====
-- The calls of the store and of the outside return no error of the engine's own.
use baidu_drive_mover.Base.{Option, none, some, Result, ok, err}
use baidu_drive_mover.Base.Effects.{Effect, After, returned, raised, bind, Triple, lift}
use baidu_drive_mover.Text.{Str}
use baidu_drive_mover.State.Model.{StateError}
use baidu_drive_mover.State.Db.{Store}
use baidu_drive_mover.World.{
  World, Failure, Outside, Context, report, report_at, outside_call, outside_at, read_clock,
  run_store, of_store, store_call,
}

abbrev pub IsForeign : {E D : Type 0} → Failure E D → Type 0
IsForeign (Failure.found d) = ⊥
IsForeign _ = Unit {0}

abbrev pub Foreign : {W E D A : Type 0} → Effect (World W) (Failure E D) A → Type 0
Foreign m = Triple (λ _. Unit {0}) m (λ _ _. Unit {0}) (λ x _. IsForeign x)

module _ {W E D : Type 0} where
  report_at-Foreign :
      (s : World W) (r : W × Option E)
      → After (λ _ _. Unit {0}) (λ x _. IsForeign x) (report_at {D = D} s r)
  unfolding report_at
  report_at-Foreign s (w, none) = returned tt
  report_at-Foreign s (w, some e) = raised tt

  pub report-Foreign : (f : W → W × Option E) → Foreign (report {D = D} f)
  unfolding report
  report-Foreign f s _ = report_at-Foreign s (f s.outside)

  outside_at-Foreign :
      {A : Type 0} (s : World W) (r : W × Result E A)
      → After (λ _ _. Unit {0}) (λ x _. IsForeign x) (outside_at {D = D} s r)
  unfolding outside_at
  outside_at-Foreign s (w, ok a) = returned tt
  outside_at-Foreign s (w, err e) = raised tt

  pub outside_call-Foreign :
      {A : Type 0} (f : W → W × Result E A) → Foreign (outside_call {D = D} f)
  unfolding outside_call
  outside_call-Foreign f s _ = outside_at-Foreign s (f s.outside)

  read_clock-Foreign : (f : W → W × Str) → Foreign (read_clock {E = E} {D = D} f)
  unfolding read_clock
  read_clock-Foreign f s _ = returned tt

  run_store-Foreign : {A : Type 0} (m : Store A) → Foreign (run_store {W = W} {E = E} {D = D} m)
  unfolding run_store
  run_store-Foreign m s _ = returned tt

  of_store-Foreign :
      {A : Type 0} (r : Result StateError A)
      → Foreign (lift {S = World W} {E = Failure E D} (of_store r))
  unfolding lift of_store
  of_store-Foreign (ok a) s _ = returned tt
  of_store-Foreign (err e) s _ = raised tt

  pub store_call-Foreign :
      {A : Type 0} (o : Outside W E) (ctx : Context) (m : Str → Store A)
      → Foreign (store_call {D = D} o ctx m)
  unfolding store_call
  store_call-Foreign o ctx m = bind (report-Foreign (o.fault ctx)) λ _.
      bind (read_clock-Foreign o.clock) λ now.
        bind (run_store-Foreign (m now))
          λ r. bind (report-Foreign (o.lost ctx)) λ _. of_store-Foreign r
