-- ===== src/Wire/Beacon.antt =====
-- `PZGBeaconData`, `PZGDatabaseStateInfo` and `PZGUpdateBackOrderKey` on the network.
use zg_choir.Base.{
  ℕ, ◌+◌, ◌*◌, ◌^◌, ◌%◌, ◌≡◌, refl, Bool, false, Option, none, some, List, [], ◌∷◌, length, ltb,
  arith, if◌then◌else◌, All, add32, ◌==◌, ◌&&◌,
}
use zg_choir.Replica.State.{StateInfo, BackOrderKey}
use zg_choir.Wire.Codec.{
  Codec, Fits, read, read_many, write_many, saturating_multiply, read_many-write_many,
  length-write_many, flatten_id, unflatten_id, IsSizedId, unflatten-flatten_id,
}

-- `PZGDatabaseStateInfo::operator==`.
unfoldable pub info_eq : StateInfo → StateInfo → Bool
info_eq a b =
    (a.current_id == b.current_id)
    && ((a.oldest_id == b.oldest_id) && (a.db_checksum == b.db_checksum))

module _ (W : Codec) where
  -- `PZGDatabaseStateInfo::Flatten`, `Unflatten` and `CalculateChecksum`.
  unfoldable pub flatten_info : StateInfo → List ℕ → List ℕ
  flatten_info i rest = W.put 8 i.current_id (W.put 8 i.oldest_id (W.put 4 i.db_checksum rest))

  unfoldable pub unflatten_info : List ℕ → Option (StateInfo × List ℕ)
  unflatten_info b = read (W.get 8 b) (λ current b. read (W.get 8 b) (λ oldest b.
      read (W.get 4 b) (λ sum b.
        some (record { current_id = current; oldest_id = oldest; db_checksum = sum }, b))))

  unfoldable pub info_checksum : StateInfo → ℕ
  info_checksum i =
      add32
        (add32 (W.checksum (i.current_id ∷ []) none)
          ((W.checksum (i.oldest_id ∷ []) none * 3) % 2 ^ 32))
        ((i.db_checksum * 7) % 2 ^ 32)

  -- The loop of `PZGBeaconData::CalculateChecksum`, from the item with the given number.
  unfoldable pub infos_checksum : ℕ → List StateInfo → ℕ → ℕ
  infos_checksum i [] sum = sum
  infos_checksum i (d ∷ l) sum =
      infos_checksum (i + 1) l (add32 sum (((i + 1) * info_checksum d) % 2 ^ 32))

  unfoldable pub beacon_checksum : List StateInfo → ℕ
  beacon_checksum l = infos_checksum 0 l (length l)

  -- `PZGBeaconData::Flatten` and `Unflatten`.
  unfoldable pub flatten_beacon : List StateInfo → List ℕ → List ℕ
  flatten_beacon l rest = W.put 4 (length l) (write_many flatten_info l rest)

  unfoldable pub unflatten_beacon : List ℕ → Option (List StateInfo × List ℕ)
  unflatten_beacon b = read (W.get 4 b) (λ n b.
      if ltb (length b) (saturating_multiply n 20) then none else read_many unflatten_info n b)

  -- `PZGUpdateBackOrderKey::Flatten` and `Unflatten`.
  unfoldable pub flatten_key : BackOrderKey → List ℕ → List ℕ
  flatten_key k rest = flatten_id W k.target (W.put 4 k.database (W.put 8 k.update_id rest))

  unfoldable pub unflatten_key : List ℕ → Option (BackOrderKey × List ℕ)
  unflatten_key b = read (unflatten_id W b) (λ p b. read (W.get 4 b) (λ db b.
      read (W.get 8 b) (λ uid b. some (record { target = p; database = db; update_id = uid }, b))))

  abbrev pub IsSizedState : StateInfo → Type 0
  IsSizedState i = Fits 8 i.current_id × Fits 8 i.oldest_id × Fits 4 i.db_checksum

  unflatten-flatten_info :
      (i : StateInfo) (rest : List ℕ)
      → IsSizedState i
      → unflatten_info (flatten_info i rest) ≡ some (i, rest)
  unfolding unflatten_info flatten_info read
  unflatten-flatten_info i rest (h, j, k) =
      rw
        (
          W.get-put 8 i.current_id _ h,
          read,
          W.get-put 8 i.oldest_id _ j,
          read,
          W.get-put 4 i.db_checksum _ k,
          read,
        )
        refl

  length-flatten_info :
      (i : StateInfo) (rest : List ℕ) → length (flatten_info i rest) ≡ 20 + length rest
  unfolding flatten_info
  length-flatten_info i rest =
      rw (W.length-put 8 i.current_id, W.length-put 8 i.oldest_id, W.length-put 4 i.db_checksum)
        (omega arith)

  -- A beacon is read back as it was written, whatever follows it: where there are fewer than 2 ^
  -- 32 databases, and each one's state ids and checksum fit in their 64 and 32 bits.
  pub unflatten-flatten_beacon :
      (l : List StateInfo) (rest : List ℕ)
      → Fits 4 (length l)
      → All IsSizedState l
      → unflatten_beacon (flatten_beacon l rest) ≡ some (l, rest)
  unfolding unflatten_beacon flatten_beacon read
  unflatten-flatten_beacon l rest h all =
      rw (W.get-put 4 (length l) _ h, read, room)
        (read_many-write_many IsSizedState unflatten_info flatten_info unflatten-flatten_info l rest
          all)
    where
      room :
          ltb (length (write_many flatten_info l rest)) (saturating_multiply (length l) 20) ≡ false
      room = rw (length-write_many 20 flatten_info length-flatten_info l rest) (ground arith)

  -- A back-order key is read back as it was written, whatever follows it: where its fields fit in
  -- their integers.
  pub unflatten-flatten_key :
      (k : BackOrderKey) (rest : List ℕ)
      → IsSizedId W k.target
      → Fits 4 k.database
      → Fits 8 k.update_id
      → unflatten_key (flatten_key k rest) ≡ some (k, rest)
  unfolding unflatten_key flatten_key read
  unflatten-flatten_key k rest h i j =
      rw
        (
          unflatten-flatten_id W k.target _ h,
          read,
          W.get-put 4 k.database _ i,
          read,
          W.get-put 8 k.update_id _ j,
          read,
        )
        refl
