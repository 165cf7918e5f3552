-- ===== src/Agent/Alarms.antt =====
-- What the agent may send to the operator.
use hydra_engine.Base.{
  ◌≡◌, refl, ap, ◌∙◌, true, Option, none, some, ◌⊎◌, [], ◌∷◌, All, All-append, arith, inl, inr,
  Bool-cases,
}
use hydra_engine.Text.{Str, codes, str_eq, str_eq_sound, member}
use hydra_engine.Json.{Json, null, bool, int, num, str, arr, obj, Items, nil, cons, Fields, member?}
use hydra_engine.Exec.{ok, Result-cases, ok-injective}
use hydra_engine.Core.OrderQueue.{fields_of}
use hydra_engine.Agent.Bridge.{Desk, is_alarm, send_alert, send_telegram_alerts}

-- The test of the bridge accepts nothing else.
alarm_level :
    (s : Str)
    → member s (codes "WARN" ∷ codes "CRITICAL" ∷ []) ≡ true
    → (s ≡ codes "WARN") ⊎ (s ≡ codes "CRITICAL")
alarm_level s h = elim (Bool-cases (str_eq s (codes "WARN"))) [
  | inl warn ↦ inl (str_eq_sound s (codes "WARN") warn)
  | inr other ↦ inr (str_eq_sound s (codes "CRITICAL") (ground arith))
]

module _ {F : Type 0} where
  -- An object whose level is WARN or CRITICAL.
  pub data IsAlarm : Json F → Type 0 where
    warned :
        (alert : Fields F)
        → member? (codes "level") alert ≡ some (str (codes "WARN"))
        → IsAlarm (obj alert)
    critical :
        (alert : Fields F)
        → member? (codes "level") alert ≡ some (str (codes "CRITICAL"))
        → IsAlarm (obj alert)

  level-IsAlarm :
      (alert : Fields F) (level : Option (Json F))
      → member? (codes "level") alert ≡ level
      → is_alarm alert ≡ true
      → IsAlarm (obj alert)
  unfolding is_alarm
  level-IsAlarm alert none e k = absurd (ground arith)
  level-IsAlarm alert (some (str s)) e k = elim (alarm_level s (ground arith)) [
    | inl warn ↦ warned alert (e ∙ ap (λ t. some (str t)) warn)
    | inr urgent ↦ critical alert (e ∙ ap (λ t. some (str t)) urgent)
  ]
  level-IsAlarm alert (some null) e k = absurd (ground arith)
  level-IsAlarm alert (some (bool b)) e k = absurd (ground arith)
  level-IsAlarm alert (some (int n)) e k = absurd (ground arith)
  level-IsAlarm alert (some (num x)) e k = absurd (ground arith)
  level-IsAlarm alert (some (arr xs)) e k = absurd (ground arith)
  level-IsAlarm alert (some (obj d)) e k = absurd (ground arith)

  fields_of-IsAlarm :
      (alert : Json F) (fields : Fields F)
      → fields_of alert ≡ ok fields
      → is_alarm fields ≡ true
      → IsAlarm alert
  fields_of-IsAlarm (obj d) fields h k =
      level-IsAlarm d (member? (codes "level") d) refl (rw (ok-injective d fields h) k)
  fields_of-IsAlarm null fields h k = absurd (ground arith)
  fields_of-IsAlarm (bool b) fields h k = absurd (ground arith)
  fields_of-IsAlarm (int n) fields h k = absurd (ground arith)
  fields_of-IsAlarm (num x) fields h k = absurd (ground arith)
  fields_of-IsAlarm (str s) fields h k = absurd (ground arith)
  fields_of-IsAlarm (arr xs) fields h k = absurd (ground arith)

module _ {F R : Type 0} where
  send_alert-IsAlarm :
      (alert : Json F) (fields : Fields F) (d : Desk F R)
      → fields_of alert ≡ ok fields
      → All IsAlarm d.alerts
      → All IsAlarm (send_alert alert fields d).alerts
  send_alert-IsAlarm alert fields d e h = elim (Bool-cases (is_alarm fields)) [
    | inl yes' ↦
        rw yes'
          (All-append IsAlarm d.alerts (alert ∷ []) h (fields_of-IsAlarm alert fields e yes', tt))
    | inr no' ↦ rw no' h
  ]

  pub send_telegram_alerts-IsAlarm :
      (alerts : Items F) (d : Desk F R)
      → All IsAlarm d.alerts
      → All IsAlarm (send_telegram_alerts alerts d).1.alerts
  unfolding send_telegram_alerts
  send_telegram_alerts-IsAlarm nil d h = h
  send_telegram_alerts-IsAlarm (cons alert rest) d h = elim (Result-cases (fields_of alert)) [
    | inl (e, p) ↦ rw p h
    | inr (fields, p) ↦ rw p (
        send_telegram_alerts-IsAlarm rest (send_alert alert fields d)
          (send_alert-IsAlarm alert fields d p h))
  ]
