-- ===== src/Dfs/Client/Files/Whole.antt =====
-- put and then get of dfs/client/client.go, from the controller's replies to the final file.
use dfs_mapreduce.Base.{
  ℕ, suc, ◌+◌, ◌%◌, ◌^◌, ◌<◌, ◌≤◌, ◌≡◌, refl, sym, ap, ◌∙◌, String, Bool, true, false, not, ◌||◌,
  Option, none, some, List, [], ◌∷◌, All, All-map, length, map, length-take, drop, arith, ltb, inl,
  if◌then◌else◌,
}
use dfs_mapreduce.Dfs.Messages.{PutFileResponse, GetFileResponse, put_file_resp, get_file_resp}
use dfs_mapreduce.Dfs.Client.Chunks.{calculate_chunks}
use dfs_mapreduce.Dfs.Client.Pieces.{sum, calculate_chunks_even}
use dfs_mapreduce.Dfs.Client.Transfer.{get_parts, merge_chunks}
use dfs_mapreduce.Dfs.Client.Files.{
  Cluster, Visit, Host, fatal, ended, upload_chunks, uploaded, put, get, answers_for,
  merge_threshold, space_padding,
}
use dfs_mapreduce.Dfs.Client.Files.Stored.{
  cut, merge_chunks-cut, AreNumbered, IsFresh, upload_chunks-AllStored,
}
use dfs_mapreduce.Dfs.Client.Files.RoundTrip.{Answers, AreLocated, get_parts-stored}

length-cut : (sizes bytes : List ℕ) → length (cut sizes bytes) ≡ length sizes
length-cut [] bytes = refl
length-cut (s ∷ sizes) bytes = ap suc (length-cut sizes (drop s bytes))

cut-small :
    (sizes bytes : List ℕ)
    → All (λ s. s < 2 ^ 32) sizes
    → All (λ p. length p < 2 ^ 32) (cut sizes bytes)
cut-small [] bytes h = tt
cut-small (s ∷ sizes) bytes h =
    (omega (arith, length-take s bytes, h.0), cut-small sizes (drop s bytes) h.1)

ended_inj : {A : Type 0} {x y : A} → ended x ≡ ended y → x ≡ y
ended_inj {x = x} e = ap (λ t. elim t [ ended a ↦ a | fatal ↦ x ]) e

uploaded-ended : (o : Option Cluster) (final : Cluster) → uploaded o ≡ ended final → o ≡ some final
uploaded-ended none final e = absurd (ground arith)
uploaded-ended (some c) final e = ap some (ended_inj e)

module _ (base : String → String) (md5 : List ℕ → List ℕ) (visits gets : ℕ → String → Visit)
    (host : Host) (name : String) where
  put-uploaded :
      (is_text : Bool) (m : ℕ) (bytes : List ℕ) (cluster final : Cluster) (placed : PutFileResponse)
      → placed.resp.ok ≡ true
      → put base md5 visits name is_text m bytes (some (put_file_resp placed)) cluster ≡ ended final
      → upload_chunks base md5 visits name
          (calculate_chunks bytes is_text m)
          placed.allocations
          bytes
          cluster
        ≡ some final
  unfolding put
  put-uploaded is_text m bytes cluster final placed ok done =
      let x =
        upload_chunks base md5 visits name (calculate_chunks bytes is_text m) placed.allocations
          bytes cluster in
      uploaded-ended x final (ap (λ b. if b then uploaded x else fatal) (sym ok) ∙ done)

  get-merged :
      (located : GetFileResponse) (free : ℕ) (agreed : Bool) (cluster : Cluster)
      (parts : List (List ℕ))
      → located.resp.ok ≡ true
      → ltb free ((located.metadata.size + space_padding) % 2 ^ 64) ≡ false
      → (not (ltb merge_threshold located.metadata.size) || agreed) ≡ true
      → get_parts md5 (map (answers_for base md5 gets host name cluster) located.locations)
        ≡ some parts
      → get base md5 gets host name (some (get_file_resp located)) free agreed cluster
        ≡ some (inl (merge_chunks parts))
  unfolding get
  get-merged located free agreed cluster parts ok room merge e = rw (e, merge, room, ok, get) refl

  -- Sizes that hold the file, whichever way it is cut.
  put-get-sizes :
      (is_text : Bool) (m : ℕ) (bytes : List ℕ) (cluster final : Cluster)
      → (placed : PutFileResponse) (located : GetFileResponse) (free : ℕ) (agreed : Bool)
      → ((n : String) → base (base n) ≡ base n)
      → sum (calculate_chunks bytes is_text m) ≡ length bytes
      → All (λ s. s < 2 ^ 32) (calculate_chunks bytes is_text m)
      → placed.resp.ok ≡ true
      → AreNumbered 0 placed.allocations
      → length placed.allocations ≡ length (calculate_chunks bytes is_text m)
      → IsFresh base md5 visits name 0 cluster
      → put base md5 visits name is_text m bytes (some (put_file_resp placed)) cluster ≡ ended final
      → Answers visits gets host
      → located.resp.ok ≡ true
      → AreLocated 0 placed.allocations located.locations
      → ltb free ((located.metadata.size + space_padding) % 2 ^ 64) ≡ false
      → (not (ltb merge_threshold located.metadata.size) || agreed) ≡ true
      → get base md5 gets host name (some (get_file_resp located)) free agreed final
        ≡ some (inl bytes)
  put-get-sizes is_text m bytes cluster final placed located free agreed idem whole small ok num n
        fresh done ans found at room merge =
      let sizes = calculate_chunks bytes is_text m in
      let up = put-uploaded is_text m bytes cluster final placed ok done in
      let stored =
        (upload_chunks-AllStored base md5 visits name sizes idem 0 placed.allocations sizes bytes
          cluster final num refl n (omega (arith, whole)) small fresh up).1 in
      let parts =
        get_parts-stored base md5 visits name idem host gets 0 placed.allocations located.locations
          (cut sizes bytes) final ans (n ∙ sym (length-cut sizes bytes))
          (cut-small sizes bytes small) at stored in
      get-merged located free agreed final (cut sizes bytes) found room merge parts
      ∙ ap (λ b. some (inl b)) (merge_chunks-cut sizes bytes whole)

  -- If the chunk size is from 1 to 2 ^ 32 - 1, the file is no text, filepath.Base leaves a base
  -- name as it is, no node serves a chunk of the file yet, the controller allocates as many chunks
  -- as the client has cut, in their order, and the put ends well; and if then the controller's
  -- locations are those of the allocations, each with all the candidates, the nodes that worked
  -- for the put work for the get and none is writing the chunk, the sort of the addresses loses
  -- none, there is room, and the chunks are to be merged: then the get ends with the bytes of the
  -- file, whichever candidates failed for which chunk.
  pub put-get :
      (m : ℕ) (bytes : List ℕ) (cluster final : Cluster)
      → (placed : PutFileResponse) (located : GetFileResponse) (free : ℕ) (agreed : Bool) → 0 < m
      → m < 2 ^ 32
      → ((n : String) → base (base n) ≡ base n)
      → placed.resp.ok ≡ true
      → AreNumbered 0 placed.allocations
      → length placed.allocations ≡ length (calculate_chunks bytes false m)
      → IsFresh base md5 visits name 0 cluster
      → put base md5 visits name false m bytes (some (put_file_resp placed)) cluster ≡ ended final
      → Answers visits gets host
      → located.resp.ok ≡ true
      → AreLocated 0 placed.allocations located.locations
      → ltb free ((located.metadata.size + space_padding) % 2 ^ 64) ≡ false
      → (not (ltb merge_threshold located.metadata.size) || agreed) ≡ true
      → get base md5 gets host name (some (get_file_resp located)) free agreed final
        ≡ some (inl bytes)
  put-get m bytes cluster final placed located free agreed pos small idem =
      let (whole, each) = calculate_chunks_even bytes m pos small in
      let fits : All (λ s. s < 2 ^ 32) (calculate_chunks bytes false m) =
        All-map (λ s. (0 < s) × (s ≤ m)) (λ s. s < 2 ^ 32) (λ s h. omega (arith, h.1, small))
          (calculate_chunks bytes false m) each in
      put-get-sizes false m bytes cluster final placed located free agreed idem whole fits
