-- ===== src/Choir/Reviewed.antt =====
-- What the review of the note assignments keeps: the running checksum, and all of the assignments where
-- it says that nothing has changed.
use zg_choir.Base.{
  ℕ, zero, suc, ◌-◌, ◌≡◌, refl, Bool, false, not, ◌&&◌, ◌||◌, List, [], ◌∷◌, ◌==◌, ltb, if_inv, inl,
  inr, Bool-cases,
}
use zg_choir.Peer.{PeerId}
use zg_choir.Choir.Notes.{has_note, count_of}
use zg_choir.Choir.Assignments.{Assignments}
use zg_choir.Choir.Running.{IsSummed, set_notes-IsSummed}
use zg_choir.Choir.Review.{
  num_choir_notes, is_online, Online, change, forget_offline, assign_note, assign_notes, thin_note,
  thin_notes, move_note, is_uneven, balance, share_out, auto_update,
}

module _ (sum : PeerId → ℕ → ℕ) (a : Assignments) where
  -- The checksum is right, and where the flag says that nothing has changed, nothing has.
  abbrev pub IsTracked : Assignments × Bool → Type 0
  IsTracked s = IsSummed sum s.0 × (s.1 ≡ false → s.0 ≡ a)

  change-IsTracked :
      (p : PeerId) (chord : ℕ) (s : Assignments × Bool)
      → IsTracked s
      → IsTracked (change sum p chord s)
  unfolding change
  change-IsTracked p chord (b, changed) h =
      (set_notes-IsSummed sum p chord b h.0, λ e. absurd (cc e))

  forget_offline-IsTracked :
      (online : List PeerId) (l : List (PeerId × ℕ)) (s : Assignments × Bool)
      → IsTracked s
      → IsTracked (forget_offline sum online l s)
  unfolding forget_offline
  forget_offline-IsTracked online [] s h = h
  forget_offline-IsTracked online ((p, c) ∷ l) s h =
      forget_offline-IsTracked online l _
        (if_inv IsTracked (is_online p online) h (change-IsTracked p 0 s h))

  assign_notes-IsTracked :
      (rounds used : ℕ) (online : Online) (s : Assignments × Bool)
      → IsTracked s
      → IsTracked (assign_notes sum rounds used online s)
  unfolding assign_notes assign_note
  assign_notes-IsTracked zero used online s h = h
  assign_notes-IsTracked (suc rounds) used online s h =
      let note = num_choir_notes - suc rounds in
      assign_notes-IsTracked rounds used online _ (
        if_inv IsTracked (has_note note used && not (has_note note s.0.histogram.chord))
          (change-IsTracked _ _ s h) h)

  thin_note-IsTracked :
      (note : ℕ) (found : Bool) (l : List (PeerId × ℕ)) (s : Assignments × Bool)
      → IsTracked s
      → IsTracked (thin_note sum note found l s)
  unfolding thin_note
  thin_note-IsTracked note found [] s h = h
  thin_note-IsTracked note found ((p, c) ∷ l) s h =
      thin_note-IsTracked note (found || has_note note c) l _
        (if_inv IsTracked (found && has_note note c) (change-IsTracked p _ s h) h)

  thin_notes-IsTracked :
      (l : List (ℕ × ℕ)) (s : Assignments × Bool) → IsTracked s → IsTracked (thin_notes sum l s)
  unfolding thin_notes
  thin_notes-IsTracked [] s h = h
  thin_notes-IsTracked ((note, n) ∷ l) s h = thin_notes-IsTracked l _ (
      if_inv IsTracked (ltb 1 (count_of note s.0.histogram))
        (thin_note-IsTracked note false s.0.notes s h) h)

  balance-IsTracked :
      (rounds : ℕ) (online : Online) (s : Assignments × Bool)
      → IsTracked s
      → IsTracked (balance sum rounds online s)
  unfolding balance move_note
  balance-IsTracked zero online s h = h
  balance-IsTracked (suc rounds) online s h = elim (Bool-cases (is_uneven sum online s.0)) [
    | inl e ↦
        rw (e, balance)
          (balance-IsTracked rounds online _ (change-IsTracked _ _ _ (change-IsTracked _ _ s h)))
    | inr e ↦ rw (e, balance) h
  ]

  share_out-IsTracked :
      (rounds strategy used : ℕ) (online : List PeerId) (s : Assignments × Bool)
      → IsTracked s
      → IsTracked (share_out sum rounds strategy used online s)
  unfolding share_out
  share_out-IsTracked rounds strategy used [] s h = h
  share_out-IsTracked rounds strategy used (p ∷ []) s h =
      let t = assign_notes sum num_choir_notes used (p, []) s in
      let assigned = assign_notes-IsTracked num_choir_notes used (p, []) s h in
      if_inv IsTracked (strategy == 1) assigned
        (thin_notes-IsTracked t.0.histogram.counts t assigned)
  share_out-IsTracked rounds strategy used (p ∷ q ∷ m) s h =
      let t = assign_notes sum num_choir_notes used (p, q ∷ m) s in
      let assigned = assign_notes-IsTracked num_choir_notes used (p, q ∷ m) s h in
      if_inv IsTracked (strategy == 1) assigned (
        balance-IsTracked rounds (p, q ∷ m) (thin_notes sum t.0.histogram.counts t)
          (thin_notes-IsTracked t.0.histogram.counts t assigned))

  pub auto_update-IsTracked :
      (visited : List (PeerId × ℕ) → List (PeerId × ℕ)) (rounds used : ℕ) (online : List PeerId)
      → IsSummed sum a
      → IsTracked (auto_update sum visited rounds used online a)
  unfolding auto_update
  auto_update-IsTracked visited rounds used online v =
      if_inv IsTracked (a.strategy == 2) (v, λ e. refl)
        (share_out-IsTracked rounds a.strategy used online _
          (forget_offline-IsTracked online (visited a.notes) (a, false) (v, λ e. refl)))
