-- ===== src/Tx/Serial.antt =====
-- The serialized form of transactions, from the `IMPLEMENT_SERIALIZE` blocks of src/main.h, and that
-- what a node writes is what another node reads.
use ixcoin.Common.{◌^◌, ◌≤◌, ◌<◌, ◌++◌, All, length}
use ixcoin.Common.Words.{IsInt, IsInt64}
use ixcoin.Serialize.{
  Bytes, Reader, ◌>>=◌, pure, max_size, le_bytes, read_le, write_int, read_int, write_int64,
  read_int64, write_vector, read_vector, write_objects, read_objects,
}
use ixcoin.Serialize.RoundTrip.{
  Reads, Reads-bind, Reads-pure, read_le_lem, read_vector-write_vector, read_int-write_int,
  read_int64-write_int64, read_objects-write_objects,
}
use ixcoin.Tx.{OutPoint, TxIn, TxOut, Transaction}

-- `FLATDATA` of an outpoint: the 32 bytes of the hash and the 4 bytes of the index.
unfoldable pub write_out_point : OutPoint → Bytes
write_out_point o = le_bytes 32 o.hash ++ le_bytes 4 o.n

unfoldable pub read_out_point : Reader OutPoint
read_out_point = do h ← read_le 32; i ← read_le 4; pure (record { hash = h; n = i })

unfoldable pub write_tx_in : TxIn → Bytes
write_tx_in i = write_out_point i.prevout ++ (write_vector i.script_sig ++ le_bytes 4 i.sequence)

unfoldable pub read_tx_in : Reader TxIn
read_tx_in = do
  o ← read_out_point
  v ← read_vector
  q ← read_le 4
  pure (record { prevout = o; script_sig = v; sequence = q })

unfoldable pub write_tx_out : TxOut → Bytes
write_tx_out o = write_int64 o.value ++ write_vector o.script_pub_key

unfoldable pub read_tx_out : Reader TxOut
read_tx_out = do n ← read_int64; v ← read_vector; pure (record { value = n; script_pub_key = v })

unfoldable pub write_tx : Transaction → Bytes
write_tx tx =
    write_int tx.version
    ++ (write_objects write_tx_in tx.vin
        ++ (write_objects write_tx_out tx.vout ++ le_bytes 4 tx.lock_time))

unfoldable pub read_tx : Reader Transaction
read_tx = do
  v ← read_int
  is ← read_objects read_tx_in
  os ← read_objects read_tx_out
  t ← read_le 4
  pure (record { version = v; vin = is; vout = os; lock_time = t })

-- The fields are in the range of their C++ types, and no script is over the reader's limit.
pub record IsOutPoint (o : OutPoint) : Type 0 where
  pub hash_fits : o.hash < 2 ^ 256
  pub n_fits : o.n < 2 ^ 32

pub record IsTxIn (i : TxIn) : Type 0 where
  pub prevout_fits : IsOutPoint i.prevout
  pub script_fits : length i.script_sig ≤ max_size
  pub sequence_fits : i.sequence < 2 ^ 32

pub record IsTxOut (o : TxOut) : Type 0 where
  pub value_fits : IsInt64 o.value
  pub script_fits : length o.script_pub_key ≤ max_size

pub record IsTransaction (tx : Transaction) : Type 0 where
  pub version_fits : IsInt tx.version
  pub vin_fits : length tx.vin ≤ max_size
  pub inputs_fit : All IsTxIn tx.vin
  pub vout_fits : length tx.vout ≤ max_size
  pub outputs_fit : All IsTxOut tx.vout
  pub lock_time_fits : tx.lock_time < 2 ^ 32

read_out_point_lem : (o : OutPoint) → IsOutPoint o → Reads read_out_point (write_out_point o) o
unfolding read_out_point write_out_point
read_out_point_lem o h =
    Reads-bind _ (read_le_lem 32 o.hash h.hash_fits)
      (Reads-pure (λ i. record { hash = o.hash; n = i }) (read_le_lem 4 o.n h.n_fits))

read_tx_in_lem : (i : TxIn) → IsTxIn i → Reads read_tx_in (write_tx_in i) i
unfolding read_tx_in write_tx_in
read_tx_in_lem i h = Reads-bind _ (read_out_point_lem i.prevout h.prevout_fits) (
    Reads-bind _ (read_vector-write_vector i.script_sig h.script_fits) (
      Reads-pure (λ q. record { prevout = i.prevout; script_sig = i.script_sig; sequence = q })
        (read_le_lem 4 i.sequence h.sequence_fits)))

read_tx_out_lem : (o : TxOut) → IsTxOut o → Reads read_tx_out (write_tx_out o) o
unfolding read_tx_out write_tx_out
read_tx_out_lem o h = Reads-bind _ (read_int64-write_int64 o.value h.value_fits) (
    Reads-pure (λ v. record { value = o.value; script_pub_key = v })
      (read_vector-write_vector o.script_pub_key h.script_fits))

-- A transaction in the range of its types that is written is read back as it was, from the front
-- of any stream, and the rest of the stream is left.
pub read_tx-write_tx : (tx : Transaction) → IsTransaction tx → Reads read_tx (write_tx tx) tx
unfolding read_tx write_tx
read_tx-write_tx tx h = Reads-bind _ (read_int-write_int tx.version h.version_fits) (
    Reads-bind _
      (read_objects-write_objects read_tx_in write_tx_in IsTxIn read_tx_in_lem tx.vin h.vin_fits
        h.inputs_fit)
      (Reads-bind _
        (read_objects-write_objects read_tx_out write_tx_out IsTxOut read_tx_out_lem tx.vout
          h.vout_fits h.outputs_fit)
        (Reads-pure
          (λ t. record { version = tx.version; vin = tx.vin; vout = tx.vout; lock_time = t })
          (read_le_lem 4 tx.lock_time h.lock_time_fits))))
