-- ===== src/Artifact/Hash.antt =====
-- internal/artifact/gate.go: what the hash of a bundle depends on.
use text.Mathlib.TextLemmas.{append_assoc}
use Prim.Native.String.append
use pvm.Prelude.{
  String, ◌≡◌, refl, sym, ap, ◌∙◌, List, [], ◌∷◌, ◌++◌, map, text_comparable, str_append,
}
use pvm.Prelude.Dict.{Dict, get}
use pvm.Artifact.Gate.{
  Bundle, hash_field, hash_trace, hash_files, canonical, hash_bundle, sort_strings, preface,
}
use pvm.Artifact.Order.{Reordered, sort_strings-Reordered}

hash_files-same :
    (digest : String → String) (f g : Dict String String) (names : List String)
    → ((n : String) → get f n ≡ get g n)
    → hash_files digest f names ≡ hash_files digest g names
hash_files-same digest f g [] h = refl
hash_files-same digest f g (n ∷ ns) h = rw (h n, hash_files-same digest f g ns h) refl

-- The hash of a bundle does not depend on the order in which Go gives the entries of the map of its files.
pub hash_bundle-Reordered :
    (digest : String → String) (b : Bundle) (files : Dict String String)
    → Reordered (map (λ f. f.0) b.files) (map (λ f. f.0) files)
    → ((n : String) → get b.files n ≡ get files n)
    → hash_bundle digest b ≡ hash_bundle digest (record b { files = files })
unfolding hash_bundle
hash_bundle-Reordered digest b files r h =
    ap (λ names. digest (canonical digest b names)) (sort_strings-Reordered _ _ r)
    ∙ ap (λ t. digest (preface digest b (str_append (hash_trace digest b.trace) t)))
        (hash_files-same digest b.files files (sort_strings (map (λ f. f.0) files)) h)

hash_trace-append :
    (digest : String → String) (ts : List String) (x rest : String)
    → str_append (hash_trace digest (ts ++ x ∷ [])) rest
      ≡ str_append (hash_trace digest ts) (str_append (hash_field digest "trace" x) rest)
hash_trace-append digest [] x rest =
    append_assoc (hash_field digest "trace" x) "" rest
    ∙ (ap (str_append (hash_field digest "trace" x)) (append.nil rest)
        ∙ sym (append.nil (str_append (hash_field digest "trace" x) rest)))
hash_trace-append digest (t ∷ ts) x rest =
    append_assoc (hash_field digest "trace" t) (hash_trace digest (ts ++ x ∷ [])) rest
    ∙ (ap (str_append (hash_field digest "trace" t)) (hash_trace-append digest ts x rest)
        ∙ sym (
            append_assoc (hash_field digest "trace" t) (hash_trace digest ts)
              (str_append (hash_field digest "trace" x) rest)))

-- The fields are hashed under labels that a file can have for its name: the last line of the trace, moved
-- into a file named trace, leaves the hash of a bundle without files as it was.
pub hash_bundle-moved :
    (digest : String → String) (b : Bundle) (x : String)
    → hash_bundle digest (record b { trace = b.trace ++ x ∷ []; files = [] })
      ≡ hash_bundle digest (record b { files = ("trace", x) ∷ [] })
unfolding hash_bundle sort_strings get
hash_bundle-moved digest b x =
    ap (λ t. digest (preface digest b t)) (hash_trace-append digest b.trace x "")
