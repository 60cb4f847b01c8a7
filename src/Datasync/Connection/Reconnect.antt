-- ===== src/Datasync/Connection/Reconnect.antt =====
-- lib/datasync/datasync.c: the delay before the next connection doubles up to 256 seconds, and a
-- handshake resets it.
use webcom_sdk_c.Datasync.Connection.{Env, Ctx, schedule_reconnect}
use webcom_sdk_c.Prelude.{
  ℕ, zero, suc, ◌+◌, ◌*◌, ◌^◌, ◌≤◌, ◌≡◌, refl, ap, ◌∙◌, ltb, if◌then◌else◌, min, arith,
}

delay_step : (k : ℕ) → k ≤ 8 → (if ltb (2 ^ k) 256 then 2 ^ k * 2 else 2 ^ k) ≡ 2 ^ (min (k + 1) 8)
delay_step zero h = refl
delay_step (suc zero) h = refl
delay_step (suc (suc zero)) h = refl
delay_step (suc (suc (suc zero))) h = refl
delay_step (suc (suc (suc (suc zero)))) h = refl
delay_step (suc (suc (suc (suc (suc zero))))) h = refl
delay_step (suc (suc (suc (suc (suc (suc zero)))))) h = refl
delay_step (suc (suc (suc (suc (suc (suc (suc zero))))))) h = refl
delay_step (suc (suc (suc (suc (suc (suc (suc (suc zero)))))))) h = refl
delay_step (suc (suc (suc (suc (suc (suc (suc (suc (suc k))))))))) h = absurd (omega arith)

module _ {D P : Type 0} (env : Env D P) where
  -- `n` connections that fail one after the other, each of which schedules the next.
  unfoldable pub failures : ℕ → Ctx D P → Ctx D P
  failures zero ctx = ctx
  failures (suc n) ctx = failures n (schedule_reconnect env ctx)

  delay-schedule :
      (ctx : Ctx D P)
      → (schedule_reconnect env ctx).next_reconnect_timer ≡ (
          if ltb ctx.next_reconnect_timer 256
          then ctx.next_reconnect_timer * 2
          else ctx.next_reconnect_timer)
  unfolding schedule_reconnect
  delay-schedule ctx = refl

  -- From a delay of 2 ^ k seconds, for k of 8 at most, `n` failures in a row lead to one of
  -- 2 ^ (k + n), but of 256 at most.
  pub failures-delay :
      (n k : ℕ) (ctx : Ctx D P)
      → k ≤ 8
      → ctx.next_reconnect_timer ≡ 2 ^ k
      → (failures n ctx).next_reconnect_timer ≡ 2 ^ (min (k + n) 8)
  unfolding failures
  failures-delay zero k ctx h e = e ∙ ap (λ m. 2 ^ m) (omega arith)
  failures-delay (suc n) k ctx h e =
      failures-delay n (min (k + 1) 8) (schedule_reconnect env ctx) (omega arith)
        (delay-schedule ctx ∙ rw e (delay_step k h))
      ∙ ap (λ m. 2 ^ m) (omega arith)
