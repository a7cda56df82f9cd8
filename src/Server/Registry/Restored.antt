-- ===== src/Server/Registry/Restored.antt =====
-- The backup file of pkg/server/image/image.go: what loadInfo finds in what dumpInfo has written.
use singularity_cri.Base.{
  ◌≡◌, refl, ap, sym, ◌∙◌, arith, ℕ, suc, nat_eq, true, false, List, [], ◌∷◌, ◌++◌, ◌==◌,
  if◌then◌else◌, Bool-cases, inl, inr, append_assoc, append-nil,
}
use singularity_cri.Base.Text.{Text, text_eq}
use singularity_cri.Base.Result.{Result, ok, err, panic, is_ok}
use singularity_cri.Base.Exec.{◌>>◌, wrapping}
use singularity_cri.Patricia.{Trie}
use singularity_cri.Runtime.Host.{Host}
use singularity_cri.Image.Reference.{local_file_domain}
use singularity_cri.Image.Info.{Info}
use singularity_cri.Index.Images
use singularity_cri.Index.Images.{Images}
use singularity_cri.Server.Registry.{
  Backup, Registry, allocate, encode_to_file, encode_all, dump_info, load_one, load_values,
  load_info,
}

-- What the JSON text of an image keeps of it: all but its users.
abbrev pub written : Info → Info
written i = record i { used_by = [] }

-- The images that the file is to bring back: those that are no local files, without their users.
abbrev pub restored : (ℕ → Info) → List ℕ → List Info
restored infos [] = []
restored infos (p ∷ ps) =
    let rest = restored infos ps in
    if (infos p).ref.uri == local_file_domain then rest else written (infos p) ∷ rest

-- Add of one image after another to an index, each under the next free number, up to the first error:
-- what the last Add answered, the next free number, and the index.
abbrev pub add_all :
    (T : Trie ℕ)
    → (List Text → List Text)
    → List Info
    → ℕ
    → Images T
    → Result (Unit {0}) × ℕ × Images T
add_all T order [] n index = (ok tt, n, index)
add_all T order (i ∷ is) n index =
    let (answer, index') =
      Images.add T order n (record index { infos = λ q. if q == n then i else index.infos q }) in
    let rest = add_all T order is (suc n) index' in
    elim answer [ ok _ ↦ rest | err e ↦ (err e, suc n, index') | panic ↦ (panic, suc n, index') ]

module _ (H : Host) (T : Trie ℕ) (order : List Text → List Text) (B : Backup H) where
  -- Encode leaves one value in the file, which reads back as what it keeps of the image.
  abbrev pub IsWhole : Info → Type 0
  IsWhole i =
      (w : H.World)
      → (text : Text) × ((B.write i w).0 ≡ text ∷ []) × (B.decode text ≡ ok (written i))

  abbrev pub AllWhole : (ℕ → Info) → List ℕ → Type 0
  AllWhole infos [] = Unit
  AllWhole infos (p ∷ ps) = IsWhole (infos p) × AllWhole infos ps

  -- The texts read back as these images.
  abbrev Decode : List Text → List Info → Type 0
  Decode [] [] = Unit
  Decode (text ∷ texts) (i ∷ is) = (B.decode text ≡ ok i) × Decode texts is
  Decode _ _ = ⊥

  Decode-append :
      (texts : List Text) (is : List Info) (text : Text) (i : Info)
      → Decode texts is
      → B.decode text ≡ ok i
      → Decode (texts ++ (text ∷ [])) (is ++ (i ∷ []))
  Decode-append [] [] text i h e = (e, tt)
  Decode-append (t ∷ ts) (j ∷ js) text i (a, h) e = (a, Decode-append ts js text i h e)
  Decode-append [] (j ∷ js) text i h e = absurd h
  Decode-append (t ∷ ts) [] text i h e = absurd h

  encode_to_file-images :
      (p : ℕ) (s : Registry H T) → (encode_to_file H T order B p s).images ≡ s.images
  unfolding encode_to_file
  encode_to_file-images p s = ground arith

  encode_to_file-local :
      (p : ℕ) (s : Registry H T)
      → ((s.images.infos p).ref.uri == local_file_domain) ≡ true
      → encode_to_file H T order B p s ≡ s
  unfolding encode_to_file
  encode_to_file-local p s h = rw h

  encode_to_file-file :
      (p : ℕ) (s : Registry H T)
      → ((s.images.infos p).ref.uri == local_file_domain) ≡ false
      → (encode_to_file H T order B p s).file ≡ s.file ++ (B.write (s.images.infos p) s.world).0
  unfolding encode_to_file
  encode_to_file-file p s h = rw h

  encode_all-Decode :
      (infos : ℕ → Info) (ps : List ℕ) (is : List Info) (s : Registry H T)
      → s.images.infos ≡ infos
      → AllWhole infos ps
      → Decode s.file is
      → Decode (encode_all H T order B ps s).file (is ++ restored infos ps)
  unfolding encode_all
  encode_all-Decode infos [] is s e h d = rw (append-nil is) d
  encode_all-Decode infos (p ∷ ps) is s e (whole, h) d =
      elim (Bool-cases ((infos p).ref.uri == local_file_domain)) [
        | inl here ↦ rw here (
            encode_all-Decode infos ps is (encode_to_file H T order B p s)
              (ap (λ (i : Images T). i.infos) (encode_to_file-images p s) ∙ e) h
              (rw (encode_to_file-local p s (rw e here)) d))
        | inr other ↦ rw other (
            let (text, one, back) = whole s.world in
            let file : (encode_to_file H T order B p s).file ≡ s.file ++ (text ∷ []) =
              encode_to_file-file p s (rw e other)
              ∙ ap (λ l. s.file ++ l) (ap (λ (f : ℕ → Info). (B.write (f p) s.world).0) e ∙ one) in
            rw (sym (append_assoc is (written (infos p) ∷ []) (restored infos ps))) (
              encode_all-Decode infos ps (is ++ (written (infos p) ∷ []))
                (encode_to_file H T order B p s)
                (ap (λ (i : Images T). i.infos) (encode_to_file-images p s) ∙ e) h
                (rw file (Decode-append s.file is text (written (infos p)) d back))))
      ]

  -- A load ended as these Adds did: with success or not, with the same index and next free number.
  pub record Loaded (l : Result (Unit {0}) × Registry H T) (adds : Result (Unit {0}) × ℕ × Images T)
      : Type 0 where
    pub succeeds : is_ok l.0 ≡ is_ok adds.0
    pub next : l.1.next ≡ adds.1
    pub images : l.1.images ≡ adds.2

  load_values-Loaded :
      (texts : List Text) (is : List Info) (s : Registry H T)
      → Decode texts is
      → Loaded (load_values H T order B texts s) (add_all T order is s.next s.images)
  unfolding load_values load_one
  load_values-Loaded [] [] s d = record { succeeds = refl; next = refl; images = refl }
  load_values-Loaded [] (i ∷ is) s d = absurd d
  load_values-Loaded (t ∷ ts) [] s d = absurd d
  load_values-Loaded (t ∷ ts) (i ∷ is) s (back, d) =
      let u = allocate i s in
      rw back (
        from (λ v. load_values-Loaded ts is v d) (Images.add T order s.next u.images).0
          (Images.add T order s.next u.images).1)
    where
      from :
          ((v : Registry H T)
            → Loaded (load_values H T order B ts v) (add_all T order is v.next v.images))
          → (r : Result (Unit {0})) (index : Images T)
          → Loaded
              ((wrapping "could not add decoded image to index"
                    (λ v. (r, record v { images = index }))
                  >> load_values H T order B ts)
                (allocate i s))
              (elim r [
                | ok _ ↦ add_all T order is (suc s.next) index
                | err e ↦ (err e, suc s.next, index)
                | panic ↦ (panic, suc s.next, index)
              ])
      from rest (ok _) index = rest (record (allocate i s) { images = index })
      from rest (err e) index = record { succeeds = refl; next = refl; images = refl }
      from rest panic index = record { succeeds = refl; next = refl; images = refl }

  -- A dumpInfo that succeeds has emptied the file before it writes.
  dump_info-encode_all :
      (s : Registry H T)
      → (dump_info H T order B s).0 ≡ ok tt
      → (w : H.World) × ((dump_info H T order B s).1
          ≡ encode_all H T order B (Images.iterate T s.images) (record s { file = []; world = w }))
  unfolding dump_info
  dump_info-encode_all s h = ((B.truncate (B.seek_start s.world).1).1, ground (arith))

  -- After a dumpInfo that succeeds, loadInfo of a registry with that file, where the seek
  -- succeeds, is the Add to its index of the images that were in the dumped index and are no local
  -- files, one after another and each without its users, up to the first that fails: it succeeds
  -- where all these Adds do and only there, and leaves the same index and the same next free
  -- number. Encode leaves the whole text of each dumped image in the file, and that text reads
  -- back as the image without its users.
  pub load_info-dump_info :
      (s t : Registry H T)
      → AllWhole s.images.infos (Images.iterate T s.images)
      → (dump_info H T order B s).0 ≡ ok tt
      → t.file ≡ (dump_info H T order B s).1.file
      → (B.seek_start t.world).0 ≡ ok tt
      → Loaded
          (load_info H T order B t)
          (add_all T order (restored s.images.infos (Images.iterate T s.images)) t.next t.images)
  unfolding load_info
  load_info-dump_info s t whole done same sought =
      let (w, e) = dump_info-encode_all s done in
      let back =
        encode_all-Decode s.images.infos (Images.iterate T s.images) []
          (record s { file = []; world = w }) refl whole tt in
      rw sought (
        load_values-Loaded t.file (restored s.images.infos (Images.iterate T s.images))
          (record t { world = (B.seek_start t.world).1 })
          (rw (same ∙ ap (λ (r : Registry H T). r.file) e) back))
