-- ===== src/Heartbeat/Measured.antt =====
-- A measured round trip leaves the index of the sources as it is.
use zg_choir.Base.{ℕ, ◌≡◌, refl, ap, Option, none, some, ◌==◌, if_inv, ◌∙◌}
use zg_choir.Assoc.{peer_key, number_key, lookup, insert}
use zg_choir.Heartbeat.State.{SourceKey, Beat, Source, Thread, source_key}
use zg_choir.Averager.{Arithmetic, new_averager, add_measurement}
use zg_choir.Wire.Heartbeat.{TimingInfo}
use zg_choir.Heartbeat.Sources.{measure, measure_source, measure_sent, measure_timing}
use zg_choir.Heartbeat.Index.{IsIndexed, IsNamed-lookup}
use zg_choir.Heartbeat.State.{source_measurement}
use zg_choir.Heartbeat.Online.{replace-Index}

module _ (M : Arithmetic) where
  source_measurement_beat :
      (multicast micros now : ℕ) (s : Source)
      → (source_measurement M multicast micros now s).beat ≡ s.beat
  unfolding source_measurement
  source_measurement_beat multicast micros now s =
      elim (add_measurement M 21 micros now
          (elim (lookup multicast s.averagers) [ none ↦ new_averager 20 | some a ↦ a ]))
        as (λ o.
          (elim o as (λ o. Source) [
            | none ↦ s
            | some a ↦ record s { averagers = insert multicast a s.averagers }
          ]).beat
          ≡ s.beat) [ none ↦ refl | some a ↦ refl ]

  measure_source-IsIndexed :
      (k : SourceKey) (multicast micros : ℕ) (o : Option Source) (t : Thread)
      → lookup k t.online ≡ o
      → IsIndexed t
      → IsIndexed (measure_source M k multicast micros o t)
  unfolding measure_source
  measure_source-IsIndexed k multicast micros none t e v = v
  measure_source-IsIndexed k multicast micros (some s) t e v =
      replace-Index k s _ t.online t.addresses
        (ap (λ b. b.packet.source) (source_measurement_beat multicast micros t.now s)
          ∙ IsNamed-lookup k t.online s v.named e)
        e v

  measure_sent-IsIndexed :
      (k : SourceKey) (multicast : ℕ) (i : TimingInfo) (b : Beat) (o : Option ℕ) (t : Thread)
      → IsIndexed t
      → IsIndexed (measure_sent M k multicast i b o t)
  unfolding measure_sent
  measure_sent-IsIndexed k multicast i b none t v = v
  measure_sent-IsIndexed k multicast i b (some at) t v =
      if_inv IsIndexed (i.dwell_micros == 4294967295) v
        (measure_source-IsIndexed k multicast _ (lookup k t.online) t refl v)

  measure_timing-IsIndexed :
      (k : SourceKey) (b : Beat) (o : Option (ℕ × TimingInfo)) (t : Thread)
      → IsIndexed t
      → IsIndexed (measure_timing M k b o t)
  unfolding measure_timing
  measure_timing-IsIndexed k b none t v = v
  measure_timing-IsIndexed k b (some (m, i)) t v =
      measure_sent-IsIndexed k m i b (lookup i.packet_id t.send_times) t v

  pub measure-IsIndexed :
      (k : SourceKey) (b : Beat) (t : Thread) → IsIndexed t → IsIndexed (measure M k b t)
  unfolding measure
  measure-IsIndexed k b t v = measure_timing-IsIndexed k b _ t v
