-- ===== src/Net/Readers.antt =====
-- onenet/standard.go, fast.go: the pool of gzip readers, which both clients have.
use eins.Prelude.{
  ℕ, zero, suc, ◌≡◌, refl, ap, Bool, true, false, not, List, [], ◌∷◌, if◌then◌else◌, arith,
}
use eins.Prelude.Ending.{Ending, panics, of_result}
use eins.Net.{Text}
use eins.Net.Wire.{Libraries}
use eins.Net.Standard.{gunzip}

-- A reader on a text, or nil.
pub data Reader : Type 0 where
  nil : Reader
  reading : Text → Reader

module _ {Q P J V : Type 0} (w : Libraries Q P J V) where
  open w use {gzip_head, inflate}

  -- `GetGzipReader` and the readers that are left: one of the pool is reset, whatever the head is, and a new
  -- one is nil if the head is not that of gzip. `sync.Pool` may have dropped its readers.
  unfoldable pub get_gzip_reader : ℕ → Bool → Text → Reader × ℕ
  get_gzip_reader zero dropped bs = (if gzip_head bs then reading bs else nil, zero)
  get_gzip_reader (suc pool) true bs = (if gzip_head bs then reading bs else nil, zero)
  get_gzip_reader (suc pool) false bs = (reading bs, pool)

  -- `io.ReadAll`, where a nil reader panics.
  unfoldable pub read_all : Reader → Ending ℕ Text
  read_all nil = panics
  read_all (reading bs) = of_result (inflate bs)

  -- `PutGzipReader`, which is deferred: closing a nil reader panics, and puts nothing.
  unfoldable pub put_gzip_reader : Reader → ℕ → ℕ
  put_gzip_reader nil pool = pool
  put_gzip_reader (reading bs) pool = suc pool

  -- The unpacking of a body in `do`, with the readers that it leaves.
  unfoldable pub unpack : ℕ → Bool → Text → Ending ℕ Text × ℕ
  unfolding get_gzip_reader read_all put_gzip_reader
  unpack pool dropped bs =
      let (r, left) = get_gzip_reader pool dropped bs in (read_all r, put_gzip_reader r left)

  -- What `do` does with bodies one after the other, if `sync.Pool` drops nothing.
  unfoldable pub unpack_all : ℕ → List Text → List (Ending ℕ Text)
  unfolding unpack
  unpack_all pool [] = []
  unpack_all pool (bs ∷ bodies) =
      let (e, pool') = unpack pool false bs in e ∷ unpack_all pool' bodies

  abbrev pub pooled : ℕ → Bool → Bool
  pooled zero dropped = false
  pooled (suc pool) dropped = not dropped

  -- The unpacking is what the model of the clients says of it, with a pool that has a reader or none.
  unpack-gunzip :
      (pool : ℕ) (dropped : Bool) (bs : Text)
      → (unpack pool dropped bs).0 ≡ gunzip w (pooled pool dropped) bs
  unfolding unpack gunzip get_gzip_reader read_all
  unpack-gunzip zero dropped bs = ground arith
  unpack-gunzip (suc pool) true bs = ground arith
  unpack-gunzip (suc pool) false bs = refl

  abbrev pub results : List Text → List (Ending ℕ Text)
  results [] = []
  results (bs ∷ bodies) = of_result (inflate bs) ∷ results bodies

  -- Once a client has a reader, and while none is dropped, a body that is not gzip makes no call panic: it
  -- is what the library makes of it.
  unpack_all_later : (pool : ℕ) (bodies : List Text) → unpack_all (suc pool) bodies ≡ results bodies
  unfolding unpack_all unpack get_gzip_reader read_all put_gzip_reader
  unpack_all_later pool [] = refl
  unpack_all_later pool (bs ∷ bodies) =
      ap (λ (es : List (Ending ℕ Text)). of_result (inflate bs) ∷ es) (unpack_all_later pool bodies)
