-- ===== src/Gin/Tests.antt =====
-- A request whose body is zipped by a byte in front.
use eins.Prelude.{
  ℕ, ◌≡◌, refl, true, false, Option, none, some, List, [], ◌∷◌, if◌then◌else◌, ◌==◌, ℕ_discrete,
}
use eins.Prelude.Int.{pos}
use eins.Gin.Request.{Readers, XRequest, raw_query, new_xrequest, json_wrapper}
use eins.Gin.Request.Reads.{read, read_all, each_time, reads_same}

abbrev unzip : List ℕ → Option (List ℕ × List ℕ)
unzip [] = none
unzip (c ∷ cs) = if c == 31 then some (cs, []) else none

abbrev readers : Readers (List ℕ)
readers = record {
  parse_query = λ raw. (1, raw) ∷ [];
  gunzip = unzip;
  decode = λ bs. (none, bs);
  to_int = λ v. pos v;
  to_int32 = λ v. pos v;
  to_int64 = λ v. pos v;
  to_bool = λ v. v == 1;
}

abbrev zipped : XRequest
zipped = new_xrequest readers (raw_query 1) (λ h. 0) (31 ∷ 7 ∷ 8 ∷ [])

abbrev zipped_read : XRequest
zipped_read = record zipped { body = some (7 ∷ 8 ∷ []); left = [] }

first_read : read readers true zipped ≡ some (7 ∷ 8 ∷ [], zipped_read)
unfolding read ℕ_discrete
first_read = refl

reads_same_example :
    read_all readers (false ∷ true ∷ []) zipped_read
    ≡ some (each_time readers (7 ∷ 8 ∷ []) (false ∷ true ∷ []), zipped_read)
reads_same_example =
    reads_same readers true (false ∷ true ∷ []) zipped zipped_read (7 ∷ 8 ∷ []) first_read

-- A plain body under the flag for a zipped one panics.
plain_panics : json_wrapper readers (raw_query 1) (λ h. 0) (5 ∷ []) ≡ none
unfolding json_wrapper ℕ_discrete
plain_panics = refl
