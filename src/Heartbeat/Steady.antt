-- ===== src/Heartbeat/Steady.antt =====
-- The index of the sources stands through all that the heartbeat thread does: packets that it
-- receives, and its pulses.
use zg_choir.Base.{
  ℕ, ◌≡◌, refl, ap, false, not, ◌&&◌, Option, none, some, List, [], ◌∷◌, ◌==◌, if◌then◌else◌, arith,
  if_inv, subst, ◌∙◌,
}
use zg_choir.Peer.{PeerId, peer_eq}
use zg_choir.Assoc.{peer_key, number_key, lookup, insert}
use zg_choir.Averager.{Arithmetic}
use zg_choir.Wire.Heartbeat.{PeerInfo}
use zg_choir.Heartbeat.State.{
  SourceKey, Beat, Source, Thread, source_key, schedule_update, is_half_attached, preferred_average,
}
use zg_choir.Heartbeat.Sources.{queue_of}
use zg_choir.Heartbeat.Election.{kingmaker}
use zg_choir.Heartbeat.Clock.{
  senior_peer, is_senior, update_offset, follow_clock, source_of, found_source, with_key, head_key,
}
use zg_choir.Heartbeat.Traffic.{schedule_for, receive_beat, peer_latency, refresh_latencies}
use zg_choir.Heartbeat.Send.{answer, answer_all, peer_info, peer_infos}
use zg_choir.Heartbeat.Index.{Index, IsIndexed, IsNamed-lookup}
use zg_choir.Heartbeat.Measured.{measure-IsIndexed}
use zg_choir.Heartbeat.Online.{refresh_source-IsIndexed, replace-Index}

schedule_for-IsIndexed : (p : PeerId) (t : Thread) → IsIndexed t → IsIndexed (schedule_for p t)
unfolding schedule_for
schedule_for-IsIndexed p t v = if_inv IsIndexed _ (scheduled v) (scheduled v)
  where
    scheduled :
        IsIndexed t
        → IsIndexed
            (if not t.update_pending && peer_eq p (kingmaker t) then schedule_update false t else t)
    scheduled v = if_inv IsIndexed (not t.update_pending && peer_eq p (kingmaker t)) v v

-- A source whose packet stays that of its peer can be put back.
put_back-IsIndexed :
    (k : SourceKey) (s new : Source) (t : Thread)
    → lookup k t.online ≡ some s
    → new.beat.packet ≡ s.beat.packet
    → IsIndexed t
    → Index (insert k new t.online) t.addresses
put_back-IsIndexed k s new t h e v =
    replace-Index k s new t.online t.addresses
      (ap (λ p. p.source) e ∙ IsNamed-lookup k t.online s v.named h) h v

with_key_lem :
    (q k : SourceKey) (o : Option Source) (s : Source) (t : Thread)
    → lookup q t.online ≡ o
    → with_key q o ≡ some (k, s)
    → lookup k t.online ≡ some s
with_key_lem q k none s t e h = ground arith
with_key_lem q k (some r) s t e h =
    subst (λ (x : SourceKey × Source). lookup x.0 t.online ≡ some x.1)
      (ap (λ (o : Option (SourceKey × Source)). elim o [ none ↦ (q, r) | some x ↦ x ]) h) e

found_source-lookup :
    (o : Option SourceKey) (t : Thread) (k : SourceKey) (s : Source)
    → found_source o t ≡ some (k, s)
    → lookup k t.online ≡ some s
unfolding found_source
found_source-lookup none t k s h = ground arith
found_source-lookup (some q) t k s h = with_key_lem q k (lookup q t.online) s t refl h

module _ (M : Arithmetic) where
  -- A heartbeat packet keeps the table of the peers' addresses the index of the sources that are
  -- online, whether it is ignored, or its source is known, has changed or is new.
  pub receive_beat-IsIndexed :
      (b : Beat) (t : Thread) → IsIndexed t → IsIndexed (receive_beat M b t)
  unfolding receive_beat
  receive_beat-IsIndexed b t v =
      if_inv IsIndexed
        ((b.packet.version_code == t.settings.version_code)
          && (b.packet.system_key == t.settings.system_key))
        (schedule_for-IsIndexed _ _
          (refresh_source-IsIndexed _ b _ refl (measure-IsIndexed M _ b t v)))
        v

  follow_clock-IsIndexed :
      (o : Option (SourceKey × Source)) (t : Thread)
      → ((k : SourceKey) (s : Source) → o ≡ some (k, s) → lookup k t.online ≡ some s)
      → IsIndexed t
      → IsIndexed (follow_clock M o t)
  unfolding follow_clock preferred_average
  follow_clock-IsIndexed none t h v = v
  follow_clock-IsIndexed (some (k, s)) t h v = put_back-IsIndexed k s _ t (h k s refl) refl v

  pub update_offset-IsIndexed : (t : Thread) → IsIndexed t → IsIndexed (update_offset M t)
  unfolding update_offset source_of
  update_offset-IsIndexed t v =
      if_inv IsIndexed (is_half_attached t)
        (if_inv IsIndexed (is_senior t) v (
          follow_clock-IsIndexed (source_of (senior_peer t) t) (record t { offset_pending = false })
            (λ k s h.
              found_source-lookup (head_key (senior_peer t) (lookup (senior_peer t) t.addresses)) t
                k s h)
            v))
        v

  peer_latency-IsIndexed :
      (p : PeerId) (o : Option (SourceKey × Source)) (t : Thread)
      → ((k : SourceKey) (s : Source) → o ≡ some (k, s) → lookup k t.online ≡ some s)
      → IsIndexed t
      → IsIndexed (peer_latency M p o t)
  unfolding peer_latency preferred_average
  peer_latency-IsIndexed p none t h v = v
  peer_latency-IsIndexed p (some (k, s)) t h v = put_back-IsIndexed k s _ t (h k s refl) refl v

  pub refresh_latencies-IsIndexed :
      (l : List (PeerId × List ℕ)) (t : Thread) → IsIndexed t → IsIndexed (refresh_latencies M l t)
  unfolding refresh_latencies source_of
  refresh_latencies-IsIndexed [] t v = v
  refresh_latencies-IsIndexed ((p, q) ∷ l) t v = refresh_latencies-IsIndexed l _ (
      peer_latency-IsIndexed p (source_of p t) t
        (λ k s h. found_source-lookup (head_key p (lookup p t.addresses)) t k s h) v)

answer-IsIndexed :
    (k : SourceKey) (o : Option Source) (i : PeerInfo) (t : Thread)
    → lookup k t.online ≡ o
    → IsIndexed t
    → IsIndexed (answer k o i t).1
unfolding answer
answer-IsIndexed k none i t h v = v
answer-IsIndexed k (some s) i t h v =
    if_inv (λ (x : PeerInfo × Thread). IsIndexed x.1) s.beat.sent_reply v
      (put_back-IsIndexed k s _ t h refl v)

answer_all-IsIndexed :
    (p : PeerId) (q : List ℕ) (i : PeerInfo) (t : Thread)
    → IsIndexed t
    → IsIndexed (answer_all p q i t).1
unfolding answer_all
answer_all-IsIndexed p [] i t v = v
answer_all-IsIndexed p (a ∷ q) i t v =
    answer_all-IsIndexed p q _ _ (answer-IsIndexed (record { address = a; peer = p }) _ i t refl v)

pub peer_infos-IsIndexed :
    (l : List PeerId) (t : Thread) → IsIndexed t → IsIndexed (peer_infos l t).1
unfolding peer_infos peer_info
peer_infos-IsIndexed [] t v = v
peer_infos-IsIndexed (p ∷ l) t v =
    peer_infos-IsIndexed l _ (answer_all-IsIndexed p (queue_of p t.addresses) _ t v)
