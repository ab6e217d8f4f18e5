-- ===== src/Handler/Serve.antt =====
-- ServeHTTP: what one request is answered with.
use kube_state_metrics.Prelude.{
  ℕ, zero, suc, Bool, true, false, ◌||◌, List, [], ◌∷◌, ◌++◌, if◌then◌else◌,
}
use kube_state_metrics.Prelude.Text.{Bytes, codes, ◌==◌}
use kube_state_metrics.Prelude.Assoc.{Map, insert}
use kube_state_metrics.Prelude.Result.{Result, ok, panic, ◌>>=◌}
use kube_state_metrics.Go.Strings.{split, trim_space, has_prefix}
use kube_state_metrics.Metric.{Float64}
use kube_state_metrics.MetricsStore.{Iteration, write_all}
use kube_state_metrics.Builder.{Kind, CacheStore, metrics_store, custom}
use kube_state_metrics.Handler.{Libraries, clients, MetricsHandler}

-- compress/gzip: n writers, each made over the one before and the first over the response; what
-- reaches the response when the last is closed and nothing was written to any.
pub record GzipPackage : Type 0 where
  pub close_unwritten : ℕ → List Bytes

-- A http.ResponseWriter: its header, and the chunks written to it. It is no io.Closer itself.
pub record Response : Type 0 where
  pub header : Map Bytes
  pub body : List Bytes

-- The test of one part of the Accept-Encoding header.
unfoldable pub accepts : Bytes → Bool
accepts part =
    let trimmed = trim_space part in trimmed == codes "gzip" || has_prefix trimmed (codes "gzip;")

-- The loop over the parts: how many writers lie over the response, and its header.
unfoldable pub gzip_parts : List Bytes → ℕ → Map Bytes → ℕ × Map Bytes
unfolding accepts
gzip_parts [] writers header = (writers, header)
gzip_parts (part ∷ parts) writers header =
    if accepts part
    then gzip_parts parts (suc writers) (insert (codes "Content-Encoding") (codes "gzip") header)
    else gzip_parts parts writers header

unfoldable pub negotiate : Bool → Bytes → Map Bytes → ℕ × Map Bytes
unfolding gzip_parts
negotiate false accept_encoding header = (0, header)
negotiate true accept_encoding header = gzip_parts (split accept_encoding b',') 0 header

unfoldable pub close : GzipPackage → ℕ → List Bytes → List Bytes
close gz zero w = w
close gz (suc n) w = w ++ gz.close_unwritten (suc n)

module _ {t : Libraries} {fl : Float64} {Obj : Kind → Type 0} where
  -- The loop over the stores, which writes to the response. A store that is no MetricsStore panics.
  unfoldable pub write_stores :
      (ℕ → Iteration) → ℕ → List (CacheStore (clients t) fl Obj) → List Bytes → Result (List Bytes)
  write_stores orders i [] w = ok w
  write_stores orders i (metrics_store k s r ∷ stores) w = do
    w' ← write_all (orders i) s w
    write_stores orders (suc i) stores w'
  write_stores orders i (custom s ∷ stores) w = panic

  -- ServeHTTP, for the request's Accept-Encoding and the orders in which each store visits its map.
  unfoldable pub serve_http :
      GzipPackage → (ℕ → Iteration) → Bytes → MetricsHandler t fl Obj → Response → Result Response
  unfolding negotiate write_stores close
  serve_http gz orders accept_encoding m r =
      let (writers, header) =
        negotiate m.enable_gzip_encoding accept_encoding (
          insert (codes "Content-Type") (codes "text/plain; version=" ++ codes "0.0.4") r.header) in
      (do
        w ← write_stores orders 0 m.stores r.body
        ok (record { header = header; body = close gz writers w }))
