-- ===== src/Loader/Install.antt =====
-- What `install_specs` of src/spec/loader.rs copies.
use tabra.Prelude.{
  ℕ, subst, ◌+◌, ◌≡◌, refl, ap, sym, Bool, true, false, List, [], ◌∷◌, Text, filter, length, All,
  path_join, arith, if◌then◌else◌,
}
use tabra.Prelude.Results.{Result, ok, err}
use tabra.Loader.{is_json}
use tabra.Loader.Files.{copied, install_entries}

module _ (copy : Text → Text → Result (Unit {0})) (from target : Text) where
  -- The file is copied without an error.
  abbrev pub IsCopied : Text → Type 0
  IsCopied name = copy (path_join from name) (path_join target name) ≡ ok tt

  -- What a run that ends well has done.
  pub record Installed (count : ℕ) (names : List Text) (n : ℕ) (done : List Text) : Type 0 where
    pub files : done ≡ filter is_json names
    pub number : n ≡ count + length done
    pub all_copied : All IsCopied done

  Installed-copied :
      (name : Text) (names : List Text) (count n : ℕ) (done : List Text)
      → is_json name ≡ true
      → IsCopied name
      → Installed (count + 1) names n done
      → Installed count (name ∷ names) n (name ∷ done)
  Installed-copied name names count n done j q i = record {
    files = rw (j, sym i.files) refl;
    number = omega (arith, i.number);
    all_copied = (q, i.all_copied);
  }

  Installed-skipped :
      (name : Text) (names : List Text) (count n : ℕ) (done : List Text)
      → is_json name ≡ false
      → Installed count names n done
      → Installed count (name ∷ names) n done
  Installed-skipped name names count n done j i = record {
    files = rw j i.files;
    number = i.number;
    all_copied = i.all_copied;
  }

  -- One file and the rest, whose result is `rest`.
  copied-Installed :
      (name : Text) (names : List Text) (count n : ℕ) (done : List Text) (c : Result (Unit {0}))
      (rest : Result ℕ × List Text)
      → is_json name ≡ true
      → copy (path_join from name) (path_join target name) ≡ c
      → copied copy from target name c rest ≡ (ok n, done)
      → ((tail : List Text) → rest ≡ (ok n, tail) → Installed (count + 1) names n tail)
      → Installed count (name ∷ names) n done
  copied-Installed name names count n done (err e) rest j q h k = cc
  copied-Installed name names count n done (ok _) (r, tail) j q h k =
      subst (λ l. Installed count (name ∷ names) n l) (ap (λ p. p.1) h)
        (Installed-copied name names count n tail j q (k tail (ap (λ p. (p.0, tail)) h)))

  entry-Installed :
      (b : Bool) (name : Text) (names : List Text) (count n : ℕ) (done : List Text)
      (skipped rest : Result ℕ × List Text)
      → is_json name ≡ b
      → (if b
          then copied copy from target name
              (copy (path_join from name) (path_join target name))
              rest
          else skipped)
        ≡ (ok n, done)
      → ((tail : List Text) → rest ≡ (ok n, tail) → Installed (count + 1) names n tail)
      → (skipped ≡ (ok n, done) → Installed count names n done)
      → Installed count (name ∷ names) n done
  entry-Installed true name names count n done skipped rest j h k l =
      copied-Installed name names count n done _ rest j refl h k
  entry-Installed false name names count n done skipped rest j h k l =
      Installed-skipped name names count n done j (l h)

  -- Where installing ends without an error, the files copied are those of the directory with the
  -- extension json, in their order, each of them was copied, and their number is the one reported.
  pub install_entries-Installed :
      (names : List Text) (count n : ℕ) (done : List Text)
      → install_entries copy from target count names ≡ (ok n, done)
      → Installed count names n done
  unfolding install_entries
  install_entries-Installed [] count n done h =
      subst (λ l. Installed count [] n l) (ap (λ p. p.1) h)
        (record {
          files = refl;
          number = omega (arith, let e : count ≡ n = cc in e);
          all_copied = tt;
        })
  install_entries-Installed (name ∷ names) count n done h =
      entry-Installed (is_json name) name names count n done
        (install_entries copy from target count names)
        (install_entries copy from target (count + 1) names) refl h
        (λ tail. install_entries-Installed names (count + 1) n tail)
        (install_entries-Installed names count n done)
