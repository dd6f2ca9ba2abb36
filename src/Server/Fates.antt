-- ===== src/Server/Fates.antt =====
-- Fates of datagrams, and what the log tells of them: listener/server.py.
use formula1_app.Prelude.{ℕ, suc, ◌+◌, ◌≡◌, refl, ap, List, [], ◌∷◌, ◌++◌, map, length, arith}
use formula1_app.Server.{
  Turn, received, socket_error, works, Line, handler_failed, receive_failed, kernel_dropped,
  packets_dropped, backlog_peaked,
}

-- The abstract channel: each datagram is delivered or lost.
pub data Fate : Type 0 where
  delivered lost : List ℕ → Fate

unfoldable pub datagrams : List Fate → List (List ℕ)
datagrams [] = []
datagrams (delivered d ∷ fates) = d ∷ datagrams fates
datagrams (lost d ∷ fates) = d ∷ datagrams fates

unfoldable pub deliveries : List Fate → List (List ℕ)
deliveries [] = []
deliveries (delivered d ∷ fates) = d ∷ deliveries fates
deliveries (lost d ∷ fates) = deliveries fates

unfoldable pub losses : List Fate → ℕ
losses [] = 0
losses (delivered d ∷ fates) = losses fates
losses (lost d ∷ fates) = suc (losses fates)

-- The datagrams that the socket gave, in order.
unfoldable pub receipts : List Turn → List (List ℕ)
receipts [] = []
receipts (received d turns now kernel_drops ∷ es) = d ∷ receipts es
receipts (socket_error ∷ es) = receipts es
receipts (works ∷ es) = receipts es

-- The losses that the log tells of.
unfoldable pub reported : List Line → ℕ
reported [] = 0
reported (packets_dropped n elapsed ∷ lines) = n + reported lines
reported (handler_failed e ∷ lines) = reported lines
reported (receive_failed ∷ lines) = reported lines
reported (kernel_dropped n elapsed rcvbuf ∷ lines) = reported lines
reported (backlog_peaked peak queue_size ∷ lines) = reported lines

pub datagrams-append : (xs ys : List Fate) → datagrams (xs ++ ys) ≡ datagrams xs ++ datagrams ys
unfolding datagrams
datagrams-append [] ys = refl
datagrams-append (delivered d ∷ xs) ys = ap (λ ds. d ∷ ds) (datagrams-append xs ys)
datagrams-append (lost d ∷ xs) ys = ap (λ ds. d ∷ ds) (datagrams-append xs ys)

pub deliveries-append : (xs ys : List Fate) → deliveries (xs ++ ys) ≡ deliveries xs ++ deliveries ys
unfolding deliveries
deliveries-append [] ys = refl
deliveries-append (delivered d ∷ xs) ys = ap (λ ds. d ∷ ds) (deliveries-append xs ys)
deliveries-append (lost d ∷ xs) ys = deliveries-append xs ys

pub losses-append : (xs ys : List Fate) → losses (xs ++ ys) ≡ losses xs + losses ys
unfolding losses
losses-append [] ys = omega arith
losses-append (delivered d ∷ xs) ys = losses-append xs ys
losses-append (lost d ∷ xs) ys = omega (arith, losses-append xs ys)

pub length-deliveries :
    (xs : List Fate) → length (deliveries xs) + losses xs ≡ length (datagrams xs)
unfolding datagrams deliveries losses
length-deliveries [] = refl
length-deliveries (delivered d ∷ xs) = omega (arith, length-deliveries xs)
length-deliveries (lost d ∷ xs) = omega (arith, length-deliveries xs)

-- Without losses everything is delivered.
pub deliveries-datagrams : (xs : List Fate) → losses xs ≡ 0 → deliveries xs ≡ datagrams xs
unfolding datagrams deliveries losses
deliveries-datagrams [] h = refl
deliveries-datagrams (delivered d ∷ xs) h = ap (λ ds. d ∷ ds) (deliveries-datagrams xs h)
deliveries-datagrams (lost d ∷ xs) h = absurd (omega arith)

pub reported-append : (xs ys : List Line) → reported (xs ++ ys) ≡ reported xs + reported ys
unfolding reported
reported-append [] ys = omega arith
reported-append (packets_dropped n elapsed ∷ xs) ys = omega (arith, reported-append xs ys)
reported-append (handler_failed e ∷ xs) ys = reported-append xs ys
reported-append (receive_failed ∷ xs) ys = reported-append xs ys
reported-append (kernel_dropped n elapsed rcvbuf ∷ xs) ys = reported-append xs ys
reported-append (backlog_peaked peak queue_size ∷ xs) ys = reported-append xs ys

pub map-append {ℓ κ} :
    {A : Type ℓ} {B : Type κ} (f : A → B) (xs ys : List A) → map f (xs ++ ys) ≡ map f xs ++ map f ys
map-append f [] ys = refl
map-append f (x ∷ xs) ys = ap (λ zs. f x ∷ zs) (map-append f xs ys)
