-- ===== src/Gin/Request/Reads.antt =====
-- onegin/ginreq/req.go, args.go: reading more than once.
use eins.Prelude.{ℕ, ◌≡◌, refl, Bool, true, false, Option, none, some, List, [], ◌∷◌, arith}
use eins.Gin.Request.{Readers, XRequest, binary, binary_gzip}

module _ {J : Type 0} (w : Readers J) where
  -- A read of the body: by `BinaryGzip`, or by `Binary`.
  unfoldable pub read : Bool → XRequest → Option (List ℕ × XRequest)
  unfolding binary binary_gzip
  read true x = binary_gzip w x
  read false x = some (binary w x)

  abbrev consed : List ℕ → Option (List (List ℕ) × XRequest) → Option (List (List ℕ) × XRequest)
  consed bs none = none
  consed bs (some (rest, x)) = some (bs ∷ rest, x)

  -- Reads one after the other, with the bodies that they return.
  unfoldable pub read_all : List Bool → XRequest → Option (List (List ℕ) × XRequest)
  unfolding read
  read_all [] x = some ([], x)
  read_all (zipped ∷ later) x = elim (read zipped x) [
    | none ↦ none
    | some (bs, x') ↦ consed bs (read_all later x')
  ]

  abbrev pub each_time : List ℕ → List Bool → List (List ℕ)
  each_time bs [] = []
  each_time bs (zipped ∷ later) = bs ∷ each_time bs later

  read-body :
      (zipped : Bool) (x x' : XRequest) (bs : List ℕ)
      → read zipped x ≡ some (bs, x')
      → x'.body ≡ some bs
  unfolding read
  read-body true x x' bs e = ground arith
  read-body false x x' bs e = ground arith

  read-again :
      (zipped : Bool) (x : XRequest) (bs : List ℕ) → x.body ≡ some bs → read zipped x ≡ some (bs, x)
  unfolding read
  read-again true x bs e = rw e refl
  read-again false x bs e = rw e refl

  read_all-again :
      (later : List Bool) (x : XRequest) (bs : List ℕ)
      → x.body ≡ some bs
      → read_all later x ≡ some (each_time bs later, x)
  unfolding read_all
  read_all-again [] x bs e = refl
  read_all-again (zipped ∷ later) x bs e =
      rw (read-again zipped x bs e, read_all, read_all-again later x bs e) refl

  -- After a read that did not panic, every later one returns the same bytes and changes nothing, also a
  -- read of the other kind: after `Binary` a `BinaryGzip` does not unpack, and it does not panic.
  pub reads_same :
      (first : Bool) (later : List Bool) (x x' : XRequest) (bs : List ℕ)
      → read first x ≡ some (bs, x')
      → read_all later x' ≡ some (each_time bs later, x')
  reads_same first later x x' bs e = read_all-again later x' bs (read-body first x x' bs e)
