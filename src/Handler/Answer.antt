-- ===== src/Handler/Answer.antt =====
-- What ServeHTTP answers.
use kube_state_metrics.Prelude.{
  ℕ, suc, ◌≡◌, refl, ap, ◌∙◌, sym, inl, inr, Bool, true, false, ◌&&◌, some, List, [], ◌∷◌, ◌+◌,
  length, keep_if, ◌++◌, append-nil, append_assoc, arith, any, All, if◌then◌else◌, Bool-cases,
}
use kube_state_metrics.Prelude.Text.{Bytes, codes, ◌==◌, eq_refl}
use kube_state_metrics.Prelude.Assoc.{Map, insert, lookup, lookup-insert}
use kube_state_metrics.Prelude.Result.{ok}
use kube_state_metrics.Go.Strings.{split}
use kube_state_metrics.Metric.{Float64}
use kube_state_metrics.MetricsStore.{Iteration}
use kube_state_metrics.MetricsStore.Zipped.{IsZipped}
use kube_state_metrics.MetricsStore.WriteOrder.{IsIteration, sections, write_all_zipped}
use kube_state_metrics.Builder.{Kind, CacheStore, metrics_store, custom}
use kube_state_metrics.Handler.{Libraries, clients, MetricsHandler}
use kube_state_metrics.Handler.Serve.{
  GzipPackage, Response, accepts, gzip_parts, negotiate, write_stores, close, serve_http,
}

abbrev content_type : Bytes
content_type = codes "Content-Type"

abbrev content_encoding : Bytes
content_encoding = codes "Content-Encoding"

-- The request accepts gzip, and the handler may use it.
abbrev pub zipped : Bool → Bytes → Bool
zipped enabled accept_encoding = enabled && any accepts (split accept_encoding b',')

gzip_parts_encoding :
    (parts : List Bytes) (n : ℕ) (h : Map Bytes)
    → lookup content_encoding (gzip_parts parts n h).1
      ≡ (if any accepts parts then some (codes "gzip") else lookup content_encoding h)
unfolding gzip_parts
gzip_parts_encoding [] n h = refl
gzip_parts_encoding (p ∷ parts) n h = elim (Bool-cases (accepts p)) [
  | inl taken ↦
      let h' = insert content_encoding (codes "gzip") h in
      rw taken (
        gzip_parts_encoding parts (suc n) h'
        ∙ ap (λ x. if any accepts parts then some (codes "gzip") else x)
            (lookup-insert content_encoding content_encoding (codes "gzip") h ∙ rw eq_refl)
        ∙ same (any accepts parts))
  | inr passed ↦ rw passed (gzip_parts_encoding parts n h)
]
  where
    same :
        (b : Bool) → (if b then some (codes "gzip") else some (codes "gzip")) ≡ some (codes "gzip")
    same true = refl
    same false = refl

gzip_parts_type :
    (parts : List Bytes) (n : ℕ) (h : Map Bytes)
    → lookup content_type (gzip_parts parts n h).1 ≡ lookup content_type h
unfolding gzip_parts
gzip_parts_type [] n h = refl
gzip_parts_type (p ∷ parts) n h = elim (Bool-cases (accepts p)) [
  | inl taken ↦ rw taken (
      gzip_parts_type parts (suc n) (insert content_encoding (codes "gzip") h)
      ∙ lookup-insert content_encoding content_type (codes "gzip") h
      ∙ (unfold ◌==◌ in refl))
  | inr passed ↦ rw passed (gzip_parts_type parts n h)
]

gzip_parts_none :
    (parts : List Bytes) (n : ℕ) (h : Map Bytes)
    → any accepts parts ≡ false
    → gzip_parts parts n h ≡ (n, h)
unfolding gzip_parts
gzip_parts_none [] n h none' = refl
gzip_parts_none (p ∷ parts) n h none' = elim (Bool-cases (accepts p)) [
  | inl taken ↦ cc (rw taken at none')
  | inr passed ↦ rw passed (gzip_parts_none parts n h (rw passed at none'))
]

negotiate_encoding :
    (enabled : Bool) (accept : Bytes) (h : Map Bytes)
    → lookup content_encoding (negotiate enabled accept h).1
      ≡ (if zipped enabled accept then some (codes "gzip") else lookup content_encoding h)
unfolding negotiate
negotiate_encoding false accept h = refl
negotiate_encoding true accept h = gzip_parts_encoding (split accept b',') 0 h

negotiate_type :
    (enabled : Bool) (accept : Bytes) (h : Map Bytes)
    → lookup content_type (negotiate enabled accept h).1 ≡ lookup content_type h
unfolding negotiate
negotiate_type false accept h = refl
negotiate_type true accept h = gzip_parts_type (split accept b',') 0 h

other_header :
    (v : Bytes) (h : Map Bytes)
    → lookup content_encoding (insert content_type v h) ≡ lookup content_encoding h
other_header v h = lookup-insert content_type content_encoding v h ∙ (unfold ◌==◌ in refl)

-- The parts of the header that accept gzip.
abbrev pub accepted : Bytes → List Bytes
accepted accept_encoding = keep_if accepts (split accept_encoding b',')

gzip_parts_writers :
    (parts : List Bytes) (n : ℕ) (h : Map Bytes)
    → (gzip_parts parts n h).0 ≡ n + length (keep_if accepts parts)
unfolding gzip_parts
gzip_parts_writers [] n h = omega arith
gzip_parts_writers (p ∷ parts) n h = elim (Bool-cases (accepts p)) [
  | inl taken ↦
      rw taken (
        gzip_parts_writers parts (suc n) (insert content_encoding (codes "gzip") h) ∙ (omega arith))
  | inr passed ↦ rw passed (gzip_parts_writers parts n h)
]

any-keep_if :
    (parts : List Bytes)
    → any accepts parts ≡ true
    → (n : ℕ) × (length (keep_if accepts parts) ≡ suc n)
any-keep_if [] h = cc h
any-keep_if (p ∷ parts) h = elim (Bool-cases (accepts p)) [
  | inl taken ↦ rw taken (length (keep_if accepts parts), refl)
  | inr passed ↦ rw passed (any-keep_if parts (rw passed at h))
]

-- Closing adds what closing unwritten writers adds, one for each part that accepts gzip, and adds
-- nothing if gzip was not negotiated.
close-zipped :
    (gz : GzipPackage) (enabled : Bool) (accept : Bytes) (h : Map Bytes) (w : List Bytes)
    → close gz (negotiate enabled accept h).0 w
      ≡ w ++ (if zipped enabled accept then gz.close_unwritten (length (accepted accept)) else [])
unfolding close negotiate
close-zipped gz false accept h w = sym (append-nil w)
close-zipped gz true accept h w = elim (Bool-cases (any accepts (split accept b','))) [
  | inl gzip ↦
      let (n, several) = any-keep_if (split accept b',') gzip in
      let writers : (gzip_parts (split accept b',') 0 h).0 ≡ suc n =
        gzip_parts_writers (split accept b',') 0 h ∙ omega (arith, several) in
      rw (gzip, writers, several) refl
  | inr plain ↦ rw (plain, gzip_parts_none (split accept b',') 0 h plain) (sym (append-nil w))
]

module _ {t : Libraries} {fl : Float64} {Obj : Kind → Type 0} where
  -- A MetricsStore each of whose entries has a slice for each header.
  abbrev pub Sound : CacheStore (clients t) fl Obj → Type 0
  Sound (metrics_store k s r) = IsZipped s.headers s
  Sound (custom s) = ⊥

  -- The sections of all stores, in order.
  abbrev pub exposition : (ℕ → Iteration) → ℕ → List (CacheStore (clients t) fl Obj) → List Bytes
  exposition orders i [] = []
  exposition orders i (metrics_store k s r ∷ stores) =
      sections (orders i) s.metrics 0 s.headers ++ exposition orders (suc i) stores
  exposition orders i (custom s ∷ stores) = exposition orders (suc i) stores

module _ {t : Libraries} {fl : Float64} {Obj : Kind → Type 0} (orders : ℕ → Iteration)
    (visit : (i : ℕ) → IsIteration (orders i)) where
  write_stores_lem :
      (i : ℕ) (stores : List (CacheStore (clients t) fl Obj)) (w : List Bytes)
      → All Sound stores
      → write_stores orders i stores w ≡ ok (w ++ exposition orders i stores)
  unfolding write_stores
  write_stores_lem i [] w all = ap ok (sym (append-nil w))
  write_stores_lem i (metrics_store k s r ∷ stores) w (sound, all) =
      rw (write_all_zipped (orders i) s.headers s w (visit i) sound, write_stores)
        (write_stores_lem (suc i) stores _ all ∙ ap ok (append_assoc w _ _))
  write_stores_lem i (custom s ∷ stores) w (sound, all) = elim sound [ ]

  -- If each store is a MetricsStore whose entries all have a slice for each of its headers, ServeHTTP
  -- does not panic. It sets the content type, and the content encoding to gzip exactly if the handler
  -- has gzip enabled and a part of the request's Accept-Encoding accepts it. In both cases it writes
  -- the plain text of all stores, in order, once; with gzip that is followed by what compress/gzip
  -- writes when as many nested writers as parts accept gzip are closed with nothing written to them.
  pub serve_http_lem :
      (gz : GzipPackage) (accept_encoding : Bytes) (m : MetricsHandler t fl Obj) (r : Response)
      → All Sound m.stores
      → let gzip = zipped m.enable_gzip_encoding accept_encoding in
        (r' : Response) × (serve_http gz orders accept_encoding m r ≡ ok r')
        × (lookup (codes "Content-Type") r'.header ≡ some (codes "text/plain; version=0.0.4"))
        × (lookup (codes "Content-Encoding") r'.header
            ≡ (if gzip then some (codes "gzip") else lookup (codes "Content-Encoding") r.header))
        × (r'.body
            ≡ (r.body ++ exposition orders 0 m.stores)
              ++ (if gzip then gz.close_unwritten (length (accepted accept_encoding)) else []))
  unfolding serve_http
  serve_http_lem gz accept_encoding m r all =
      let h = insert content_type (codes "text/plain; version=" ++ codes "0.0.4") r.header in
      let (writers, header) = negotiate m.enable_gzip_encoding accept_encoding h in
      let w = r.body ++ exposition orders 0 m.stores in
      (
        record { header = header; body = close gz writers w },
        rw (write_stores_lem 0 m.stores r.body all),
        negotiate_type m.enable_gzip_encoding accept_encoding h
            ∙ lookup-insert content_type content_type _ r.header
            ∙ rw eq_refl,
        negotiate_encoding m.enable_gzip_encoding accept_encoding h
            ∙ ap
                (λ x.
                  if zipped m.enable_gzip_encoding accept_encoding then some (codes "gzip") else x)
                (other_header (codes "text/plain; version=" ++ codes "0.0.4") r.header),
        close-zipped gz m.enable_gzip_encoding accept_encoding h w,
      )
