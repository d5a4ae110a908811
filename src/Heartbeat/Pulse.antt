-- ===== src/Heartbeat/Pulse.antt =====
-- A pulse of the heartbeat thread leaves the index of the sources standing.
use Prim.Native.Nat.{Ordering}
use zg_choir.Base.{
  ℕ, ◌≡◌, refl, sym, ap, Bool, false, not, ◌&&◌, Option, none, some, List, [], ◌∷◌, ◌==◌,
  if◌then◌else◌, leb, arith, if_inv, add64, ◌∙◌,
}
use zg_choir.Peer.{PeerId}
use zg_choir.Assoc.{peer_key, number_key, lookup, keys_of, holds, has}
use zg_choir.Assoc.Distinct.{IsTable}
use zg_choir.Averager.{Arithmetic}
use zg_choir.Wire.Codec.{Codec}
use zg_choir.Wire.Heartbeat.{HeartbeatPacket}
use zg_choir.Heartbeat.State.{
  SourceKey, Beat, Source, Dio, Thread, source_key, full_peer, is_fully_attached, is_half_attached,
}
use zg_choir.Heartbeat.Sources.{or_empty}
use zg_choir.Heartbeat.Election.{
  Muscle, Sort, kingmaker_source, compare_by_seniority, order_by, valid_key, ordered_peers,
}
use zg_choir.Heartbeat.Clock.{update_offset}
use zg_choir.Heartbeat.Traffic.{update_official, pulse_update, report_attachment}
use zg_choir.Heartbeat.Frame.{Zlib}
use zg_choir.Heartbeat.Send.{
  make_packet, drop_tags, add_tags, ensure_tags, discard_averagers, send_deflated, tag_all, send_on,
  send_heartbeats, pulse_send, pulse, remember_send, same_sockets,
}
use zg_choir.Heartbeat.Index.{IsIndexed, IsNamed, addresses_of}
use zg_choir.Heartbeat.Online.{expire_all-IsIndexed}
use zg_choir.Heartbeat.Steady.{
  update_offset-IsIndexed, refresh_latencies-IsIndexed, peer_infos-IsIndexed,
}

-- What the code relies on of the sort: it only moves the entries of a table.
pub record Sorts (sort : Sort) : Type 0 where
  pub lookup-sort :
      (c : PeerId → PeerId → Ordering) (l : List (PeerId × List ℕ)) (p : PeerId)
      → IsTable l
      → lookup p (sort c l) ≡ lookup p l
  pub sort-IsTable :
      (c : PeerId → PeerId → Ordering) (l : List (PeerId × List ℕ)) → IsTable l → IsTable (sort c l)

module _ (C : Muscle) (sort : Sort) (S : Sorts sort) where
  order_by-IsIndexed :
      (o : Option SourceKey) (t : Thread) → IsIndexed t → IsIndexed (order_by C sort o t).1
  unfolding order_by
  order_by-IsIndexed (some k) t v = v
  order_by-IsIndexed none t v = record {
    online_table = v.online_table;
    addresses_table = S.sort-IsTable (compare_by_seniority C t) t.addresses v.addresses_table;
    named = v.named;
    filled = λ p e.
        v.filled p
          (sym (S.lookup-sort (compare_by_seniority C t) t.addresses p v.addresses_table) ∙ e);
    indexed = λ p.
        ap or_empty (S.lookup-sort (compare_by_seniority C t) t.addresses p v.addresses_table)
        ∙ v.indexed p;
  }

  make_packet-IsIndexed : (t : Thread) → IsIndexed t → IsIndexed (make_packet C sort t).1
  unfolding make_packet ordered_peers
  make_packet-IsIndexed t v =
      if_inv (λ (x : HeartbeatPacket × Thread). IsIndexed x.1)
        ((t.settings.peer_type == full_peer) && is_half_attached t)
        (peer_infos-IsIndexed _ _ (order_by-IsIndexed _ _ v)) v

report_attachment-IsIndexed : (t : Thread) → IsIndexed t → IsIndexed (report_attachment t)
unfolding report_attachment
report_attachment-IsIndexed t v =
    if_inv IsIndexed (not t.attachment_reported && is_fully_attached t) v v

keys_of-discard :
    (a : ℕ) (l : List (SourceKey × Source)) → keys_of (discard_averagers a l) ≡ keys_of l
unfolding discard_averagers
keys_of-discard a [] = refl
keys_of-discard a ((k, s) ∷ l) = ap (k ∷◌) (keys_of-discard a l)

discard-IsNamed :
    (a : ℕ) (l : List (SourceKey × Source)) → IsNamed l → IsNamed (discard_averagers a l)
unfolding discard_averagers
discard-IsNamed a [] h = h
discard-IsNamed a ((k, s) ∷ l) h = (h.0, discard-IsNamed a l h.1)

lookup-discard :
    (a : ℕ) (k : SourceKey) (l : List (SourceKey × Source))
    → lookup k l ≡ none
    → lookup k (discard_averagers a l) ≡ none
unfolding discard_averagers lookup
lookup-discard a k [] h = h
lookup-discard a k ((q, s) ∷ l) h = ground (arith, lookup-discard a k l)

discard-IsTable :
    (a : ℕ) (l : List (SourceKey × Source)) → IsTable l → IsTable (discard_averagers a l)
unfolding discard_averagers
discard-IsTable a [] h = h
discard-IsTable a ((k, s) ∷ l) h = (lookup-discard a k l h.0, discard-IsTable a l h.1)

drop_tags-IsIndexed :
    (dests : List ℕ) (l : List (ℕ × ℕ)) (t : Thread) → IsIndexed t → IsIndexed (drop_tags dests l t)
unfolding drop_tags
drop_tags-IsIndexed dests [] t v = v
drop_tags-IsIndexed dests ((a, tag) ∷ l) t v = drop_tags-IsIndexed dests l _ (
    if_inv IsIndexed (holds a dests) v (record {
      online_table = discard-IsTable a t.online v.online_table;
      addresses_table = v.addresses_table;
      named = discard-IsNamed a t.online v.named;
      filled = v.filled;
      indexed = λ p. v.indexed p ∙ ap (addresses_of p) (sym (keys_of-discard a t.online));
    }))

add_tags-IsIndexed : (l : List ℕ) (t : Thread) → IsIndexed t → IsIndexed (add_tags l t)
unfolding add_tags
add_tags-IsIndexed [] t v = v
add_tags-IsIndexed (a ∷ l) t v =
    add_tags-IsIndexed l _ (if_inv IsIndexed (has a t.address_to_tag) v v)

tag_all-IsIndexed :
    (l : List Dio) (dests : List ℕ) (t : Thread) → IsIndexed t → IsIndexed (tag_all l dests t)
unfolding tag_all
tag_all-IsIndexed [] dests t v = v
tag_all-IsIndexed (_ ∷ _) dests t v = add_tags-IsIndexed dests t v

ensure_tags-IsIndexed :
    (valid : ℕ → Bool) (t : Thread) → IsIndexed t → IsIndexed (ensure_tags valid t)
unfolding ensure_tags
ensure_tags-IsIndexed valid t v = if_inv IsIndexed (same_sockets t.dios t.dio_keys) v (
    tag_all-IsIndexed t.dios _ _
      (drop_tags-IsIndexed _ t.address_to_tag (record t { dio_keys = t.dios }) v))

module _ (W : Codec) (Z : Zlib) (sent_at : ℕ → ℕ) (C : Muscle) where
  send_deflated-IsIndexed :
      (id : ℕ) (z : Option (List ℕ)) (t : Thread)
      → IsIndexed t
      → IsIndexed (send_deflated W Z sent_at C id z t).1
  unfolding send_deflated remember_send
  send_deflated-IsIndexed id none t v = v
  send_deflated-IsIndexed id (some z) t v = ensure_tags-IsIndexed C.valid_address t v

module _ (W : Codec) (Z : Zlib) (sent_at : ℕ → ℕ) (C : Muscle) (sort : Sort) (S : Sorts sort) where
  send_on-IsIndexed :
      (l : List Dio) (t : Thread) → IsIndexed t → IsIndexed (send_on W Z sent_at C sort l t).1
  unfolding send_on
  send_on-IsIndexed [] t v = v
  send_on-IsIndexed (_ ∷ _) t v =
      send_deflated-IsIndexed W Z sent_at C _ _ _ (make_packet-IsIndexed C sort S t v)

  module _ (M : Arithmetic) where
    pulse_send-IsIndexed :
        (t : Thread) → IsIndexed t → IsIndexed (pulse_send W Z sent_at C sort M t).1
    unfolding pulse_send send_heartbeats
    pulse_send-IsIndexed t v =
        if_inv (λ (x : List (ℕ × List ℕ) × Thread). IsIndexed x.1) (leb t.next_send t.now)
          (refresh_latencies-IsIndexed M _ _
            (send_on-IsIndexed t.dios (record t { next_send = add64 t.now t.ping_interval }) v))
          v

    module _ (same_keys : List SourceKey → List SourceKey → Bool) where
      pulse_update-IsIndexed :
          (t : Thread) → IsIndexed t → IsIndexed (pulse_update M C sort same_keys t).1
      unfolding pulse_update update_official ordered_peers
      pulse_update-IsIndexed t v =
          if_inv (λ (x : Option (List Beat) × Thread). IsIndexed x.1) t.update_pending
            (update_offset-IsIndexed M _ (if_inv IsIndexed _ ordered ordered)) v
        where
          u : Thread
          u = record t { update_pending = false; force_update = false }

          ordered : IsIndexed (order_by C sort (valid_key C (kingmaker_source u)) u).1
          ordered = order_by-IsIndexed C sort S (valid_key C (kingmaker_source u)) u v

      -- A pulse keeps the table of the peers' addresses the index of the sources that are online,
      -- in the order in which they came, and with no empty queue: where the sort only moves the
      -- entries of a table.
      pub pulse-IsIndexed :
          (t : Thread) → IsIndexed t → IsIndexed (pulse W Z sent_at C sort M same_keys t).1.1
      unfolding pulse
      pulse-IsIndexed t v =
          report_attachment-IsIndexed _ (expire_all-IsIndexed _ _ (pulse_send-IsIndexed t2 later))
        where
          t1 : Thread
          t1 = (pulse_update M C sort same_keys t).1

          t2 : Thread
          t2 = if t1.offset_pending then update_offset M t1 else t1

          later : IsIndexed t2
          later =
              if_inv IsIndexed t1.offset_pending
                (update_offset-IsIndexed M t1 (pulse_update-IsIndexed t v))
                (pulse_update-IsIndexed t v)
