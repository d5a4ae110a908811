-- ===== src/Mux/Notify.antt =====
-- Updates of nodes on their way to the subscribers: `TreeNodeUpdatedAux`, `UpdateSubscriber`,
-- `DoesPathMatch`, `EnsureSubscriberInBatchGroup` and the ends of a batch in
-- src/messagetree/gateway/MuxTreeGateway.cpp.
--
-- `excluded` is the subscriber that the tag of an update names: who uploaded it and wants no reply.
use Prim.Native.String.{String}
use zg_choir.Base.{
  ℕ, Bool, true, false, not, ◌&&◌, ◌||◌, Option, none, some, List, [], ◌∷◌, ◌++◌, ◌==◌,
  if◌then◌else◌,
}
use zg_choir.Assoc.{text_key, number_key, lookup, insert, erase, has, holds, keys_of}
use zg_choir.Mux.State.{Info, Mux, Callback, node_updated, begin_batch, end_batch, Paths}

abbrev pub is_none_of : List ℕ → Bool
is_none_of [] = true
is_none_of (x ∷ l) = false

abbrev pub is_excluded : Option ℕ → ℕ → Bool
is_excluded none sub = false
is_excluded (some x) sub = x == sub

module _ {M : Type 0} where
  -- Before the first callback of a batch the subscriber hears that the batch begins.
  unfoldable pub ensure_in_batch : ℕ → Mux → Mux × List (Callback M)
  ensure_in_batch sub m =
      if m.in_batch && not (holds sub m.needs_batch_end)
      then (record m { needs_batch_end = m.needs_batch_end ++ sub ∷ [] }, begin_batch sub ∷ [])
      else (m, [])

  -- The subscriber is told, and his list of received paths is replaced.
  unfoldable pub tell :
      ℕ → Info → List (String × ℕ) → String → Option M → String → Mux → Mux × List (Callback M)
  tell sub i received path msg tag m =
      let (m', begins) = ensure_in_batch sub m in
      (
        record m' { infos = insert sub (some (record i { received = received })) m'.infos },
        begins ++ node_updated sub path msg tag ∷ [],
      )

  unfoldable pub end_all : List ℕ → List (Callback M)
  end_all [] = []
  end_all (sub ∷ l) = end_batch sub ∷ end_all l

  -- `CallbackBatchEnds`.
  unfoldable pub callback_batch_ends : Mux → Mux × List (Callback M)
  unfolding end_all
  callback_batch_ends m = (record m { needs_batch_end = [] }, end_all m.needs_batch_end)

module _ {M : Type 0} (paths : Paths M) where
  unfoldable pub does_path_match : List ℕ → ℕ → Info → String → Option M → Bool
  does_path_match allowed sub i path msg =
      (is_none_of allowed || holds sub allowed) && paths.matches i.entries path msg

  -- A node that no longer matches is a removal to the subscriber, who hears of it only where he has
  -- heard of the node.
  unfoldable pub update_subscriber :
      ℕ → Info → String → Option M → String → Mux → Mux × List (Callback M)
  unfolding tell
  update_subscriber sub i path (some msg) tag m =
      tell sub i (insert path (paths.segments path) i.received) path (some msg) tag m
  update_subscriber sub i path none tag m =
      if has path i.received then tell sub i (erase path i.received) path none tag m else (m, [])

  unfoldable pub visit_info :
      Option ℕ
      → ℕ
      → Option (Option Info)
      → String
      → Option M
      → String
      → Mux
      → Mux × List (Callback M)
  unfolding update_subscriber does_path_match
  visit_info excluded sub none path msg tag m = (m, [])
  visit_info excluded sub (some none) path msg tag m = (m, [])
  visit_info excluded sub (some (some i)) path msg tag m =
      if is_excluded excluded sub
      then (m, [])
      else update_subscriber sub i path
          (if does_path_match m.allowed sub i path msg then msg else none) tag m

  unfoldable pub visit_all :
      List ℕ → Option ℕ → String → Option M → String → Mux → Mux × List (Callback M)
  unfolding visit_info
  visit_all [] excluded path msg tag m = (m, [])
  visit_all (sub ∷ l) excluded path msg tag m =
      let (m', calls) = visit_info excluded sub (lookup sub m.infos) path msg tag m in
      let (m'', more) = visit_all l excluded path msg tag m' in (m'', calls ++ more)

  -- `TreeNodeUpdatedAux`: while initial results arrive, only those who asked for them are visited.
  unfoldable pub node_updated_aux :
      Option ℕ → String → Option M → String → Mux → Mux × List (Callback M)
  unfolding visit_all
  node_updated_aux excluded path msg tag m =
      visit_all (if is_none_of m.allowed then keys_of m.infos else m.allowed) excluded path msg tag
        m
