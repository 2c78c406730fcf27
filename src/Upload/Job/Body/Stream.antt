-- ===== src/Upload/Job/Body/Stream.antt =====
-- Whatever libcurl calls, the bytes that it has are those of the chunk.
use zhuzhbox_cli.Base.{
  ℕ, zero, suc, ◌+◌, ◌-◌, ◌*◌, ◌/◌, ◌^◌, ◌<◌, ◌≤◌, ◌≡◌, Bool, false, not, ◌&&◌, ◌||◌, Option, none,
  List, [], ◌∷◌, ◌++◌, ltb, ◌==◌, if◌then◌else◌, arith, Bytes, length, take, drop, length-append,
  length-take, take_all, refl, sym, ap, ◌∙◌, subst, if_holds, append-nil,
}
use zhuzhbox_cli.Base.Int.{ℤ, pos, negsuc}
use zhuzhbox_cli.Upload.Geometry.{u64}
use zhuzhbox_cli.Upload.Job.{Job}
use zhuzhbox_cli.Upload.Job.Body.{
  Fread, read_want, chunk_read, chunk_seek, BodyCall, Sent, received, target, body_step, body_run,
}

module _ {J : Type 0} where
  -- The stream stands behind the bytes that libcurl has, and what remains is the rest of the chunk.
  pub record IsStreaming (contents : Bytes) (offset count : ℕ) (job : Job J) (sent : Sent)
      : Type 0 where
    pub inside : sent.from + length sent.bytes + job.chunk_remaining ≡ job.chunk_length
    pub at : job.position ≡ job.chunk_offset + (sent.from + length sent.bytes)
    pub exact : sent.bytes ≡ take (length sent.bytes) (drop (job.chunk_offset + sent.from) contents)
    pub fits : job.chunk_offset + job.chunk_length < 2 ^ 64
    pub kept : (job.chunk_offset ≡ offset) × (job.chunk_length ≡ count)

take-more : (n m : ℕ) (s : Bytes) → take n s ++ take m (drop n s) ≡ take (n + m) s
take-more zero m s = let e : m ≡ 0 + m = omega arith in ap (λ k. take k s) e
take-more (suc n) m [] =
    let e : suc (n + m) ≡ suc n + m = omega arith in
    take_all m [] (omega arith) ∙ ap (λ k. take k []) e
take-more (suc n) m (c ∷ s) =
    let e : suc (n + m) ≡ suc n + m = omega arith in
    ap (◌∷◌ c) (take-more n m s) ∙ ap (λ k. take k (c ∷ s)) e

drop_nothing : (m : ℕ) → drop {A = ℕ} m [] ≡ []
drop_nothing zero = refl
drop_nothing (suc m) = refl

drop-drop : (n m : ℕ) (s : Bytes) → drop m (drop n s) ≡ drop (n + m) s
drop-drop zero m s = let e : m ≡ 0 + m = omega arith in ap (λ k. drop k s) e
drop-drop (suc n) m [] =
    let e : suc (n + m) ≡ suc n + m = omega arith in drop_nothing m ∙ ap (λ k. drop k []) e
drop-drop (suc n) m (c ∷ s) =
    let e : suc (n + m) ≡ suc n + m = omega arith in drop-drop n m s ∙ ap (λ k. drop k (c ∷ s)) e

take-length : (m : ℕ) (s : Bytes) → take (length (take m s)) s ≡ take m s
take-length zero s = refl
take-length (suc m) [] = refl
take-length (suc m) (c ∷ s) = ap (◌∷◌ c) (take-length m s)

-- What is read next goes on where the bytes end.
read_more :
    (contents bytes : Bytes) (start most : ℕ)
    → bytes ≡ take (length bytes) (drop start contents)
    → let got = take most (drop (start + length bytes) contents) in
      bytes ++ got ≡ take (length (bytes ++ got)) (drop start contents)
read_more contents bytes start most exact =
    let n = length bytes in
    let rest : Bytes = drop n (drop start contents) in
    let got = take most (drop (start + n) contents) in
    let same : got ≡ take (length got) rest =
      ap (take most) (sym (drop-drop start n contents))
      ∙ sym (take-length most rest)
      ∙ ap (λ k. take k rest) (ap (λ z. length (take most z)) (drop-drop start n contents)) in
    ap (λ b. b ++ got) exact
    ∙ ap (λ g. take n (drop start contents) ++ g) same
    ∙ take-more n (length got) (drop start contents)
    ∙ ap (λ k. take k (drop start contents)) (sym (length-append bytes got))

module _ {J : Type 0} (contents : Bytes) (offset count : ℕ) where
  read_want-IsStreaming :
      (f : Fread) (want : ℕ) (job : Job J) (sent : Sent)
      → want ≤ job.chunk_remaining
      → IsStreaming contents offset count job sent
      → let (bytes, after) = read_want contents f want job in
        IsStreaming contents offset count after (received sent bytes)
  unfolding read_want
  read_want-IsStreaming f want job sent small h =
      let most = if ltb f.most want then f.most else want in
      let got = take most (drop job.position contents) in
      let start = job.chunk_offset + sent.from in
      let place : start + length sent.bytes ≡ job.position = omega (arith, h.at) in
      let more : sent.bytes ++ got ≡ take (length (sent.bytes ++ got)) (drop start contents) =
        subst
          (λ k.
            sent.bytes ++ take most (drop k contents)
            ≡ take (length (sent.bytes ++ take most (drop k contents))) (drop start contents))
          place (read_more contents sent.bytes start most h.exact) in
      let longer = length-append sent.bytes got in
      let bound : length got ≤ job.chunk_remaining =
        ground (arith, length-take most (drop job.position contents), small) in
      let Goes : Option Bytes × Job J → Type 0 =
        λ x. IsStreaming contents offset count x.1 (received sent x.0) in
      if_holds Goes (want == 0) _ _
        (λ e.
          subst (λ b. IsStreaming contents offset count job (record sent { bytes = b }))
            (sym (append-nil sent.bytes)) h)
        (λ e.
          if_holds Goes (length got == 0 && f.error) _ _ (λ g. h)
            (λ g. record {
              inside = omega (arith, h.inside, longer, bound);
              at = omega (arith, h.at, longer);
              exact = more;
              fits = h.fits;
              kept = h.kept;
            }))

  chunk_read-IsStreaming :
      (f : Fread) (size nitems : ℕ) (job : Job J) (sent : Sent)
      → IsStreaming contents offset count job sent
      → let (bytes, after) = chunk_read contents f size nitems job in
        IsStreaming contents offset count after (received sent bytes)
  unfolding chunk_read
  chunk_read-IsStreaming f size nitems job sent h =
      let Goes : Option Bytes × Job J → Type 0 =
        λ x. IsStreaming contents offset count x.1 (received sent x.0) in
      let want = size * nitems in
      let most = if ltb job.chunk_remaining want then job.chunk_remaining else want in
      if_holds Goes (not (size == 0) && ltb ((2 ^ 64 - 1) / size) nitems) (none, job)
        (read_want contents f most job) (λ e. h)
        (λ e. read_want-IsStreaming f most job sent (least job.chunk_remaining want) h)
    where
      least : (a b : ℕ) → (if ltb a b then a else b) ≤ a
      least a b = ground arith

  chunk_seek-IsStreaming :
      (from_start seek_ok : Bool) (place : ℤ) (job : Job J) (sent : Sent)
      → IsStreaming contents offset count job sent
      → let (moved, after) = chunk_seek from_start seek_ok place job in
        IsStreaming contents offset count after
          (if moved then record { from = target place; bytes = [] } else sent)
  unfolding chunk_seek u64
  chunk_seek-IsStreaming from_start seek_ok (negsuc n) job sent h = h
  chunk_seek-IsStreaming from_start seek_ok (pos n) job sent h =
      let Goes : Bool × Job J → Type 0 = λ x.
        IsStreaming contents offset count x.1
          (if x.0 then record { from = n; bytes = [] } else sent) in
      if_holds Goes (not from_start || ltb job.chunk_length n || not seek_ok) (false, job) _
        (λ e. h)
        (λ e.
          let inside : n ≤ job.chunk_length = ground (arith, e) in
          record {
            inside = omega arith;
            at = omega (arith, h.fits);
            exact = refl;
            fits = h.fits;
            kept = h.kept;
          })

  body_run-IsStreaming :
      (calls : List BodyCall) (job : Job J) (sent : Sent)
      → IsStreaming contents offset count job sent
      → let (after, sent') = body_run contents calls (job, sent) in
        IsStreaming contents offset count after sent'
  unfolding body_run body_step
  body_run-IsStreaming [] job sent h = h
  body_run-IsStreaming (BodyCall.a_read f size nitems ∷ calls) job sent h =
      let (bytes, after) = chunk_read contents f size nitems job in
      body_run-IsStreaming calls after (received sent bytes)
        (chunk_read-IsStreaming f size nitems job sent h)
  body_run-IsStreaming (BodyCall.a_seek from_start seek_ok place ∷ calls) job sent h =
      let (moved, after) = chunk_seek from_start seek_ok place job in
      body_run-IsStreaming calls after
        (if moved then record { from = target place; bytes = [] } else sent)
        (chunk_seek-IsStreaming from_start seek_ok place job sent h)

-- Whatever libcurl reads and wherever it seeks, and however short the reads are, the bytes that it has
-- since the last seek are those of the file from that place of the chunk up to what remains of it. The job
-- stands at the start of the chunk, whose end is below 2^64.
pub body_run-exact :
    {J : Type 0} (contents : Bytes) (calls : List BodyCall) (job : Job J)
    → job.position ≡ job.chunk_offset
    → job.chunk_remaining ≡ job.chunk_length
    → job.chunk_offset + job.chunk_length < 2 ^ 64
    → let (after, sent) = body_run contents calls (job, record { from = 0; bytes = [] }) in
      let count = job.chunk_length - (sent.from + after.chunk_remaining) in
      (sent.bytes ≡ take count (drop (job.chunk_offset + sent.from) contents))
      × (length sent.bytes ≡ count)
      × (sent.from + after.chunk_remaining ≤ job.chunk_length)
body_run-exact contents calls job at whole fits =
    let nothing : Sent = record { from = 0; bytes = [] } in
    let begins : IsStreaming contents job.chunk_offset job.chunk_length job nothing = record {
      inside = omega arith;
      at = omega arith;
      exact = refl;
      fits = fits;
      kept = (refl, refl);
    } in
    let h =
      body_run-IsStreaming contents job.chunk_offset job.chunk_length calls job nothing begins in
    let (after, sent) = body_run contents calls (job, nothing) in
    let count = job.chunk_length - (sent.from + after.chunk_remaining) in
    let exact : sent.bytes
        ≡ take (length sent.bytes) (drop (job.chunk_offset + sent.from) contents) =
      subst (λ o. sent.bytes ≡ take (length sent.bytes) (drop (o + sent.from) contents)) h.kept.0
        h.exact in
    let inside = h.inside ∙ h.kept.1 in
    let long : length sent.bytes ≡ count = omega (arith, inside) in
    (
      exact ∙ ap (λ n. take n (drop (job.chunk_offset + sent.from) contents)) long,
      long,
      omega (arith, inside),
    )
