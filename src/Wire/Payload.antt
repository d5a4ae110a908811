-- ===== src/Wire/Payload.antt =====
-- `PZGDatabaseUpdate` on the network: its `Flatten` and `Unflatten`, with its checksum.
use zg_choir.Base.{
  sym, ==_iff, ℕ, zero, suc, ◌≡◌, ◌≢◌, refl, false, Option, none, some, List, [], ◌∷◌, ◌++◌, length,
  take, drop, ltb, arith, if◌then◌else◌, ◌==◌, length-append,
}
use zg_choir.Platform.{Platform}
use zg_choir.Update.{Update, Kind, noop, reset, replace, update, unknown, get_payload_buffer}
use zg_choir.Wire.Codec.{
  Codec, Fits, read, take-append, drop-append, flatten_id, unflatten_id, IsSizedId,
  unflatten-flatten_id,
}
use zg_choir.Wire.Heartbeat.{buffer_bytes}

-- The numbers of `PZG_DATABASE_UPDATE_TYPE_*`.
unfoldable pub kind_code : Kind → ℕ
kind_code noop = 0
kind_code reset = 1
kind_code replace = 2
kind_code update = 3
kind_code (unknown c) = c

unfoldable pub kind_of : ℕ → Kind
kind_of zero = noop
kind_of (suc zero) = reset
kind_of (suc (suc zero)) = replace
kind_of (suc (suc (suc zero))) = update
kind_of c = unknown c

-- `PZG_DATABASE_UPDATE_TYPE_CODE`.
abbrev pub update_type_code : ℕ
update_type_code = 1684174192

module _ {P : Platform} (W : Codec) where
  -- `CalculateChecksum`.
  unfoldable pub update_checksum : Update P → ℕ
  update_checksum u =
      W.checksum
        (kind_code u.kind
          ∷ u.database_index
          ∷ u.elapsed_millis
          ∷ u.start_micros
          ∷ u.source.high
          ∷ u.source.low
          ∷ u.update_id
          ∷ u.pre_checksum
          ∷ u.post_checksum
          ∷ [])
        (get_payload_buffer u)

  -- `Flatten`, past the type code.
  unfoldable pub flatten_body : Update P → List ℕ → List ℕ
  flatten_body u rest = W.put 1 (kind_code u.kind) (
      W.put 1 0 (
        W.put 2 u.database_index (
          W.put 2 u.elapsed_millis (
            W.put 2 0 (
              W.put 8 u.start_micros (
                flatten_id W u.source (
                  W.put 8 u.update_id (
                    W.put 4 u.pre_checksum (
                      W.put 4 u.post_checksum (
                        W.put 4 (update_checksum u) (
                          W.put 4 (length (buffer_bytes (get_payload_buffer u)))
                            (buffer_bytes (get_payload_buffer u) ++ rest))))))))))))

  unfoldable pub flatten_update : Update P → List ℕ → List ℕ
  flatten_update u rest = W.put 4 update_type_code (flatten_body u rest)

  -- The end of `Unflatten`: the payload's bytes, and the comparison of the checksums.
  unfoldable pub unflatten_payload : ℕ → ℕ → Update P → List ℕ → Option (Update P × List ℕ)
  unflatten_payload sum n u b =
      let u' = if ltb 0 n then record u { buf = some (take n b) } else u in
      if ltb (length b) n
      then none
      else (if sum == update_checksum u' then some (u', drop n b) else none)

  unfoldable pub unflatten_body : List ℕ → Option (Update P × List ℕ)
  unflatten_body b = read (W.get 1 b) (λ kind b. read (W.get 1 b) (λ reserved b.
      read (W.get 2 b) (λ index b. read (W.get 2 b) (λ elapsed b. read (W.get 2 b) (λ reserved' b.
        read (W.get 8 b) (λ start b. read (unflatten_id W b) (λ source b. read (W.get 8 b) (λ uid b.
          read (W.get 4 b) (λ pre b. read (W.get 4 b) (λ post b. read (W.get 4 b) (λ sum b.
            read (W.get 4 b) (λ n b.
              unflatten_payload sum n
                (record {
                  kind = kind_of kind;
                  database_index = index;
                  elapsed_millis = elapsed;
                  start_micros = start;
                  source = source;
                  update_id = uid;
                  pre_checksum = pre;
                  post_checksum = post;
                  buf = none;
                  msg = none;
                })
                b))))))))))))

  -- `Unflatten`.
  unfoldable pub unflatten_update : List ℕ → Option (Update P × List ℕ)
  unflatten_update b =
      read (W.get 4 b) (λ code b. if code == update_type_code then unflatten_body b else none)

  -- The fields of an update fit in their integers, and its payload is not an empty buffer.
  pub record IsSizedUpdate (u : Update P) : Type 0 where
    pub kind_known : kind_of (kind_code u.kind) ≡ u.kind
    pub kind_fits : Fits 1 (kind_code u.kind)
    pub index_fits : Fits 2 u.database_index
    pub elapsed_fits : Fits 2 u.elapsed_millis
    pub start_fits : Fits 8 u.start_micros
    pub source_fits : IsSizedId W u.source
    pub id_fits : Fits 8 u.update_id
    pub pre_fits : Fits 4 u.pre_checksum
    pub post_fits : Fits 4 u.post_checksum
    pub payload_fits : Fits 4 (length (buffer_bytes (get_payload_buffer u)))
    pub payload_present : get_payload_buffer u ≢ some []

  -- The update as a peer receives it: its payload is there as a buffer alone.
  abbrev pub on_wire : Update P → Update P
  on_wire u = record u { buf = get_payload_buffer u; msg = none }

  update_checksum-on_wire : (u : Update P) → update_checksum (on_wire u) ≡ update_checksum u
  unfolding update_checksum get_payload_buffer
  update_checksum-on_wire u = ground arith

  unflatten_payload_lem :
      (u : Update P) (l : Option (List ℕ)) (rest : List ℕ)
      → get_payload_buffer u ≡ l
      → l ≢ some []
      → unflatten_payload
          (update_checksum u)
          (length (buffer_bytes l))
          (record u { buf = none; msg = none })
          (buffer_bytes l ++ rest)
        ≡ some (record u { buf = l; msg = none }, rest)
  unfolding unflatten_payload
  unflatten_payload_lem u none rest e h =
      rw (sym (update_checksum-on_wire u), e)
        (ground (
          arith,
          ==_iff (update_checksum (record u { buf = none; msg = none }))
              (update_checksum (record u { buf = none; msg = none })),
        ))
  unflatten_payload_lem u (some []) rest e h = absurd (h refl)
  unflatten_payload_lem u (some (x ∷ b)) rest e h =
      rw (fits, take-append b rest, drop-append b rest, sym (update_checksum-on_wire u), e)
        (ground arith)
    where
      fits : ltb (length ((x ∷ b) ++ rest)) (length (x ∷ b)) ≡ false
      fits = rw (length-append (x ∷ b) rest) (ground arith)

  -- An update is read back as it was written, with its payload as a buffer, whatever follows it:
  -- where each field fits in its integer, its kind is the one of its number, and the payload is
  -- not an empty buffer.
  pub unflatten-flatten_update :
      (u : Update P) (rest : List ℕ)
      → IsSizedUpdate u
      → unflatten_update (flatten_update u rest) ≡ some (on_wire u, rest)
  unfolding unflatten_update flatten_update unflatten_body flatten_body read update_checksum
  unflatten-flatten_update u rest v =
      rw
        (
          W.get-put 4 update_type_code _ (omega arith),
          read,
          W.get-put 1 (kind_code u.kind) _ v.kind_fits,
          read,
          W.get-put 1 0 _ (omega arith),
          read,
          W.get-put 2 u.database_index _ v.index_fits,
          read,
          W.get-put 2 u.elapsed_millis _ v.elapsed_fits,
          read,
          W.get-put 2 0 _ (omega arith),
          read,
          W.get-put 8 u.start_micros _ v.start_fits,
          read,
          unflatten-flatten_id W u.source _ v.source_fits,
          read,
          W.get-put 8 u.update_id _ v.id_fits,
          read,
          W.get-put 4 u.pre_checksum _ v.pre_fits,
          read,
          W.get-put 4 u.post_checksum _ v.post_fits,
          read,
          W.get-put 4 (update_checksum u) _ (W.checksum_fits _ _),
          read,
          W.get-put 4 _ _ v.payload_fits,
          read,
          v.kind_known,
        )
        (unflatten_payload_lem u (get_payload_buffer u) rest refl v.payload_present)
