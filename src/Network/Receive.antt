-- ===== src/Network/Receive.antt =====
-- The multicast thread of `PZGNetworkIOSession::InternalThreadEntry`: which of the messages that
-- arrive it hands to the main thread.
use zg_choir.Base.{
  ℕ, zero, suc, ◌-◌, ◌≤◌, ◌≡◌, refl, Bool, true, false, not, ◌&&◌, ◌||◌, Option, none, some, List,
  [], ◌∷◌, ◌++◌, if◌then◌else◌, length, drop, ◌==◌, arith, inl, inr, Bool-cases, length-append,
  if_inv,
}
use zg_choir.Peer.{PeerId, peer_eq, is_valid}
use zg_choir.Replica.State.{StateInfo}
use zg_choir.Wire.Beacon.{info_eq}

-- `PZGMulticastMessageTag`.
pub record Tag : Type 0 where
  pub source : PeerId
  pub version : ℕ
  pub tag_id : ℕ

abbrev pub tag_eq : Tag → Tag → Bool
tag_eq a b = peer_eq a.source b.source && ((a.version == b.version) && (a.tag_id == b.tag_id))

-- A multicast message: the senior's beacon, if it can be read, or a message for the main thread.
pub data Payload (A : Type 0) : Type 0 where
  beacon_message : Option (List StateInfo) → Payload A
  data_message : A → Payload A

-- The thread's variables, and what it has handed to the main thread.
pub record Receiver (A : Type 0) : Type 0 where
  pub local_peer : PeerId
  pub senior_peer : PeerId
  pub version : ℕ
  pub recent : List Tag
  pub last_beacon : Option (List StateInfo)
  pub forwarded : List (Payload A)

-- `PZGBeaconData::operator==`.
unfoldable pub beacons_eq : List StateInfo → List StateInfo → Bool
beacons_eq [] [] = true
beacons_eq [] (j ∷ js) = false
beacons_eq (i ∷ is) [] = false
beacons_eq (i ∷ is) (j ∷ js) = info_eq i j && beacons_eq is js

-- `recentlyReceived.ContainsKey`.
unfoldable pub was_received : Tag → List Tag → Bool
was_received t [] = false
was_received t (s ∷ l) = tag_eq s t || was_received t l

-- The size of the window, past which the oldest tags are forgotten.
abbrev pub window : ℕ
window = 1000

unfoldable pub forget_oldest : List Tag → List Tag
forget_oldest l = drop (length l - window) l

-- Whether a beacon is news.
unfoldable pub is_news : List StateInfo → Option (List StateInfo) → Bool
is_news b none = true
is_news b (some last) = not (beacons_eq b last)

module _ {A : Type 0} where
  unfoldable pub receive_beacon : Tag → Option (List StateInfo) → Receiver A → Receiver A
  receive_beacon t none r = r
  receive_beacon t (some b) r =
      if (is_valid r.senior_peer && peer_eq t.source r.senior_peer) && is_news b r.last_beacon
      then record r {
        last_beacon = some b;
        forwarded = r.forwarded ++ (beacon_message (some b) ∷ []);
      }
      else r

  unfoldable pub receive_data : Tag → A → Receiver A → Receiver A
  receive_data t a r = if was_received t r.recent then r else record r {
    recent = forget_oldest (r.recent ++ (t ∷ []));
    forwarded = r.forwarded ++ (data_message a ∷ []);
  }

  unfoldable pub receive_tagged : Tag → Payload A → Receiver A → Receiver A
  receive_tagged t (beacon_message b) r = receive_beacon t b r
  receive_tagged t (data_message a) r = receive_data t a r

  -- One message that carries a tag: it counts if it comes from another peer of the same version.
  unfoldable pub receive : Tag → Payload A → Receiver A → Receiver A
  receive t p r =
      if (t.version == r.version) && not (peer_eq t.source r.local_peer)
      then receive_tagged t p r
      else r

info_eq_refl : (i : StateInfo) → info_eq i i ≡ true
unfolding info_eq
info_eq_refl i = ground arith

beacons_eq_refl : (l : List StateInfo) → beacons_eq l l ≡ true
unfolding beacons_eq
beacons_eq_refl [] = refl
beacons_eq_refl (i ∷ l) = rw (info_eq_refl i, beacons_eq_refl l) refl

received_last : (t : Tag) (l : List Tag) → was_received t (l ++ (t ∷ [])) ≡ true
unfolding was_received
received_last t [] = ground arith
received_last t (s ∷ l) = rw (received_last t l) (ground arith)

-- Dropping fewer tags than come before the last one keeps it.
received_drop :
    (n : ℕ) (t : Tag) (l : List Tag) → n ≤ length l → was_received t (drop n (l ++ (t ∷ []))) ≡ true
received_drop zero t l h = received_last t l
received_drop (suc n) t [] h = absurd (omega (arith, h))
received_drop (suc n) t (s ∷ l) h = received_drop n t l (omega (arith, h))

received_kept : (t : Tag) (l : List Tag) → was_received t (forget_oldest (l ++ (t ∷ []))) ≡ true
unfolding forget_oldest
received_kept t l =
    received_drop (length (l ++ (t ∷ [])) - window) t l
      (rw (length-append l (t ∷ [])) (omega arith))

length-drop : (n : ℕ) (l : List Tag) → length (drop n l) ≡ length l - n
length-drop zero l = omega arith
length-drop (suc n) [] = omega arith
length-drop (suc n) (s ∷ l) = rw (length-drop n l) (omega arith)

module _ {A : Type 0} where
  data_twice :
      (t : Tag) (a : A) (r : Receiver A)
      → receive_data t a (receive_data t a r) ≡ receive_data t a r
  unfolding receive_data
  data_twice t a r = elim (Bool-cases (was_received t r.recent)) [
    | inl e ↦ rw (e, receive_data, e) refl
    | inr e ↦ rw (e, receive_data, received_kept t r.recent) refl
  ]

  beacon_twice :
      (t : Tag) (b : Option (List StateInfo)) (r : Receiver A)
      → receive_beacon t b (receive_beacon t b r) ≡ receive_beacon t b r
  unfolding receive_beacon is_news
  beacon_twice t none r = refl
  beacon_twice t (some b) r =
      elim (Bool-cases
        ((is_valid r.senior_peer && peer_eq t.source r.senior_peer) && is_news b r.last_beacon)) [
          | inl e ↦ rw (e, receive_beacon, beacons_eq_refl b) (ground arith)
          | inr e ↦ rw (e, receive_beacon, e) refl
        ]

  tagged_twice :
      (t : Tag) (p : Payload A) (r : Receiver A)
      → receive_tagged t p (receive_tagged t p r) ≡ receive_tagged t p r
  unfolding receive_tagged
  tagged_twice t (beacon_message b) r = beacon_twice t b r
  tagged_twice t (data_message a) r = data_twice t a r

  -- A multicast message that arrives twice in a row, as over two network interfaces, counts once:
  -- the thread is left as the first copy left it, and hands nothing more to the main thread.
  pub duplicate_dropped :
      (t : Tag) (p : Payload A) (r : Receiver A) → receive t p (receive t p r) ≡ receive t p r
  unfolding receive
  duplicate_dropped t p r =
      elim (Bool-cases ((t.version == r.version) && not (peer_eq t.source r.local_peer))) [
        | inl e ↦
            rw (e, receive) (if_inv (λ x. x ≡ receive_tagged t p r) _ (tagged_twice t p r) refl)
        | inr e ↦ rw (e, receive, e) refl
      ]

  -- The list of recently received tags never grows past a thousand tags: where it holds at most a
  -- thousand before a message, it does after it.
  pub receive_keeps_window :
      (t : Tag) (p : Payload A) (r : Receiver A)
      → length r.recent ≤ window
      → length (receive t p r).recent ≤ window
  unfolding receive receive_tagged receive_beacon receive_data forget_oldest
  receive_keeps_window t (beacon_message none) r h = ground arith
  receive_keeps_window t (beacon_message (some b)) r h = ground arith
  receive_keeps_window t (data_message a) r h =
      ground (arith, length-drop (length (r.recent ++ (t ∷ [])) - window) (r.recent ++ (t ∷ [])))
