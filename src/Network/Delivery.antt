-- ===== src/Network/Delivery.antt =====
-- A mail from one post office to a box of another.
use cop5614nachos.Base.{
  ℕ, ◌+◌, ◌^◌, ◌≤◌, ◌<◌, ◌≡◌, ◌≢◌, refl, ap, ◌∙◌, true, false, not, ◌&&◌, some, List, [], ◌∷◌, ◌++◌,
  arith, ltb, leb, ◌==◌, lt→ltb, if◌then◌else◌, Array, update, if_false, update-at, bcopy,
}
use cop5614nachos.Machine.Interrupt.{network_send_int, network_recv_int, insert_pending, schedule}
use cop5614nachos.Threads.Kernel.{v}
use cop5614nachos.Filesys.Image.{bytes_of, words_of}
use cop5614nachos.Filesys.Image.Words.{words_of-bytes_of}
use cop5614nachos.Filesys.Image.Fetching.{words_of-same}
use cop5614nachos.Network.{
  network_send_done, network_read_poll, PacketHeader, MailHeader, Mail, Network, PostOffice, Node,
  three_words, packet_header_bytes, packet_header_of, mail_header_bytes, mail_header_of, mail, wire,
  packed, network_send, take_packet, check_pkt_avail, network_receive, put, postal_delivery,
  post_send, in_network,
}

-- A buffer that begins with three words and goes on with other bytes.
abbrev framed : Array ℕ → Array ℕ → Array ℕ → ℕ → Array ℕ
framed head payload garbage length = bcopy payload 0 (bcopy head 0 garbage 0 12) 12 length

framed-head :
    (head payload garbage : Array ℕ) (length x : ℕ)
    → x < 12
    → framed head payload garbage length x ≡ head x
framed-head head payload garbage length x lt = ground arith

framed-payload :
    (head payload garbage : Array ℕ) (length x : ℕ)
    → x < length
    → framed head payload garbage length (12 + x) ≡ payload x
framed-payload head payload garbage length x lt = ground arith

framed-words :
    (words payload garbage : Array ℕ) (length i : ℕ)
    → i < 3
    → words i < 2 ^ 32
    → words_of (framed (bytes_of words) payload garbage length) i ≡ words i
framed-words words payload garbage length i lt small =
    words_of-same (framed (bytes_of words) payload garbage length) (bytes_of words) 3 i
      (λ x lt'. framed-head (bytes_of words) payload garbage length x (omega arith)) lt
    ∙ words_of-bytes_of words i
    ∙ omega arith

-- The header of a packet is read from the wire as it was written.
packet_header_of-wire :
    (hdr : PacketHeader) (payload garbage : Array ℕ)
    → hdr.to < 2 ^ 32
    → hdr.from < 2 ^ 32
    → hdr.length < 2 ^ 32
    → packet_header_of (wire hdr payload garbage) ≡ hdr
unfolding packet_header_of packet_header_bytes
packet_header_of-wire hdr payload garbage to from length =
    let words = three_words hdr.to hdr.from hdr.length in
    let word = framed-words words payload garbage hdr.length in
    let first = word 0 (omega arith) to in
    let second = word 1 (omega arith) from in
    let third = word 2 (omega arith) length in
    λ i. record { to = first i; from = second i; length = third i }

mail_header_of-packed :
    (hdr : MailHeader) (contents garbage : Array ℕ)
    → hdr.to < 2 ^ 32
    → hdr.from < 2 ^ 32
    → hdr.length < 2 ^ 32
    → mail_header_of (packed hdr contents garbage) ≡ hdr
unfolding mail_header_of mail_header_bytes
mail_header_of-packed hdr contents garbage to from length =
    let words = three_words hdr.to hdr.from hdr.length in
    let word = framed-words words contents garbage hdr.length in
    let first = word 0 (omega arith) to in
    let second = word 1 (omega arith) from in
    let third = word 2 (omega arith) length in
    λ i. record { to = first i; from = second i; length = third i }

mail_header_of-same :
    (a b : Array ℕ) → ((x : ℕ) → x < 12 → a x ≡ b x) → mail_header_of a ≡ mail_header_of b
unfolding mail_header_of
mail_header_of-same a b same =
    let word = λ (i : ℕ) (lt : i < 3). words_of-same a b 3 i same lt in
    let first = word 0 (omega arith) in
    let second = word 1 (omega arith) in
    let third = word 2 (omega arith) in
    λ i. record { to = first i; from = second i; length = third i }

-- The header that `PostOffice::Send` gives to the network.
abbrev pub stamped : PacketHeader → MailHeader → Node → PacketHeader
stamped pkt_hdr mail_hdr s = record {
  to = pkt_hdr.to;
  from = s.world.net_addr;
  length = mail_hdr.length + 12;
}

abbrev after_send : PacketHeader → Array ℕ → Array ℕ → Node → Node
after_send hdr payload garbage s = record s {
  pending =
      insert_pending
        (record {
          handler = network_send_done;
          arg = 0;
          when = s.stats.total_ticks + 100;
          type = network_send_int;
        })
        s.pending;
  world = record (s.world) {
    network = record (s.world.network) {
      sent = s.world.network.sent ++ (hdr.to, wire hdr payload garbage) ∷ [];
    };
  };
}

abbrev after_take : PacketHeader → Array ℕ → List (Array ℕ) → Node → Node
after_take hdr buffer rest s = record s {
  stats = record (s.stats) { num_packets_recvd = s.stats.num_packets_recvd + 1 };
  world = record (s.world) {
    network = record (s.world.network) {
      in_hdr = hdr;
      inbox = bcopy buffer 12 s.world.network.inbox 0 hdr.length;
      arrivals = rest;
    };
    kernel = v s.world.message_available s.world.kernel;
  };
}

post_send-sent :
    (pkt_hdr : PacketHeader) (mail_hdr : MailHeader) (contents : Array ℕ)
    (garbage : Array (Array ℕ)) (s : Node)
    → s.world.network.send_busy ≡ false
    → s.world.network.ident ≡ s.world.net_addr
    → mail_hdr.length ≤ 40
    → mail_hdr.to < s.world.num_boxes
    → (t : Node) × (post_send false pkt_hdr mail_hdr contents garbage s ≡ some t)
      × (t.world.network.sent
          ≡ s.world.network.sent
            ++ (
              pkt_hdr.to,
              wire (stamped pkt_hdr mail_hdr s) (packed mail_hdr contents (garbage 0)) (garbage 1),
            )
              ∷ [])
unfolding post_send network_send schedule
post_send-sent pkt_hdr mail_hdr contents garbage s idle own short box =
    let fits : leb mail_hdr.length 40 ≡ true = ground arith in
    let there = lt→ltb mail_hdr.to s.world.num_boxes box in
    let ok : (not s.world.network.send_busy
          && ltb 0 (mail_hdr.length + 12)
          && leb (mail_hdr.length + 12) 52
          && s.world.net_addr == s.world.network.ident)
        ≡ true =
      ground arith in
    (
      after_send (stamped pkt_hdr mail_hdr s) (packed mail_hdr contents (garbage 0)) (garbage 1) s,
      simp (fits, there, ok),
      refl,
    )

take_packet-step :
    (buffer : Array ℕ) (rest : List (Array ℕ)) (s : Node) (hdr : PacketHeader)
    → packet_header_of buffer ≡ hdr
    → hdr.to ≡ s.world.network.ident
    → hdr.length ≤ 52
    → take_packet buffer rest s ≡ some (after_take hdr buffer rest s)
unfolding take_packet
take_packet-step buffer rest s hdr e ours short =
    let ok : (hdr.to == s.world.network.ident && leb hdr.length 52) ≡ true = ground arith in
    rw (e, ok) refl

-- The machine with a packet in its socket.
abbrev pub arrived : Array ℕ → Node → Node
arrived packet s = in_network (λ n. record n { arrivals = packet ∷ [] }) s

abbrev polled : Node → Node
polled s = record s {
  pending =
      insert_pending
        (record {
          handler = network_read_poll;
          arg = 0;
          when = s.stats.total_ticks + 100;
          type = network_recv_int;
        })
        s.pending;
}

check_pkt_avail-takes :
    (packet : Array ℕ) (s : Node) (hdr : PacketHeader)
    → s.world.network.in_hdr.length ≡ 0
    → packet_header_of packet ≡ hdr
    → hdr.to ≡ s.world.network.ident
    → hdr.length ≤ 52
    → check_pkt_avail (arrived packet s)
      ≡ some (after_take hdr packet [] (polled (arrived packet s)))
unfolding check_pkt_avail schedule
check_pkt_avail-takes packet s hdr empty e ours short =
    if_false _ _ (ap (λ n. not (n == 0)) empty)
    ∙ take_packet-step packet [] (polled (arrived packet s)) hdr e ours short

abbrev worker_buffer : Array ℕ → Network → Array ℕ
worker_buffer garbage n =
    if n.in_hdr.length == 0 then garbage else bcopy n.inbox 0 garbage 0 n.in_hdr.length

abbrev delivered : Array (Array ℕ) → MailHeader → PostOffice → Mail
delivered garbage mail_hdr po = record {
  pkt_hdr = po.network.in_hdr;
  mail_hdr = mail_hdr;
  contents = bcopy (worker_buffer (garbage 0) po.network) 12 (garbage 1) 0 mail_hdr.length;
}

postal_delivery-step :
    (garbage : Array (Array ℕ)) (po : PostOffice) (mail_hdr : MailHeader)
    → mail_header_of (worker_buffer (garbage 0) po.network) ≡ mail_hdr
    → mail_hdr.to < po.num_boxes
    → mail_hdr.length ≤ 40
    → postal_delivery garbage po
      ≡ some (record po {
        network = record (po.network) { in_hdr = record (po.network.in_hdr) { length = 0 } };
        boxes =
            update po.boxes mail_hdr.to
              (po.boxes mail_hdr.to ++ delivered garbage mail_hdr po ∷ []);
      })
unfolding postal_delivery network_receive put mail
postal_delivery-step garbage po mail_hdr e box short =
    let there = lt→ltb mail_hdr.to po.num_boxes box in
    let fits : leb mail_hdr.length 40 ≡ true = ground arith in rw (e, there, fits) refl

-- What came off the wire, in the buffer of the worker and in the mail.
buffer_byte :
    (garbage packet inbox : Array ℕ) (length x : ℕ)
    → 0 < length
    → x < length
    → (if length == 0 then garbage else bcopy (bcopy packet 12 inbox 0 length) 0 garbage 0 length) x
      ≡ packet (12 + x)
buffer_byte garbage packet inbox length x pos lt = ground arith

contents_byte :
    (buffer garbage : Array ℕ) (length x : ℕ)
    → x < length
    → bcopy buffer 12 garbage 0 length x ≡ buffer (12 + x)
contents_byte buffer garbage length x lt = ground arith

-- Two machines: a `Send` whose packet the network does not lose, the poll that finds the packet on
-- the machine with the address in its header, while no other packet waits there, and the round of
-- the postal worker that it wakes. The mail is the last one of the box that its header names, with
-- the sender's address and the length in the header of the packet, the same mail header, and the
-- bytes that were sent; the other boxes stay as they were and the device can take the next packet.
pub postal_delivery-post_send :
    (pkt_hdr : PacketHeader) (mail_hdr : MailHeader) (contents : Array ℕ)
    (garbage garbage' : Array (Array ℕ)) (s r : Node)
    → s.world.network.send_busy ≡ false
    → s.world.network.ident ≡ s.world.net_addr
    → s.world.net_addr < 2 ^ 32
    → mail_hdr.length ≤ 40
    → mail_hdr.to < s.world.num_boxes
    → mail_hdr.to < r.world.num_boxes
    → mail_hdr.to < 2 ^ 32
    → mail_hdr.from < 2 ^ 32
    → pkt_hdr.to < 2 ^ 32
    → pkt_hdr.to ≡ r.world.network.ident
    → r.world.network.in_hdr.length ≡ 0
    → (s' r' : Node) × (packet : Array ℕ) × (po : PostOffice) × (m : Mail) × (post_send false
          pkt_hdr mail_hdr contents garbage s
        ≡ some s')
      × (s'.world.network.sent ≡ s.world.network.sent ++ (pkt_hdr.to, packet) ∷ [])
      × (check_pkt_avail (arrived packet r) ≡ some r')
      × (postal_delivery garbage' r'.world ≡ some po)
      × (po.boxes mail_hdr.to ≡ r.world.boxes mail_hdr.to ++ m ∷ [])
      × (m.pkt_hdr ≡ stamped pkt_hdr mail_hdr s)
      × (m.mail_hdr ≡ mail_hdr)
      × ((x : ℕ) → x < mail_hdr.length → m.contents x ≡ contents x)
      × ((b : ℕ) → b ≢ mail_hdr.to → po.boxes b ≡ r.world.boxes b)
      × (po.network.in_hdr.length ≡ 0)
postal_delivery-post_send pkt_hdr mail_hdr contents garbage garbage' s r idle own addr short box
      box' to from dest ours empty =
    let hdr = stamped pkt_hdr mail_hdr s in
    let load = packed mail_hdr contents (garbage 0) in
    let packet = wire hdr load (garbage 1) in
    let (s', e, sent) = post_send-sent pkt_hdr mail_hdr contents garbage s idle own short box in
    let read = packet_header_of-wire hdr load (garbage 1) dest addr (omega arith) in
    let taken = after_take hdr packet [] (polled (arrived packet r)) in
    let e' = check_pkt_avail-takes packet r hdr empty read ours (omega arith) in
    let held : (x : ℕ)
        → x < mail_hdr.length + 12
        → worker_buffer (garbage' 0) taken.world.network x ≡ load x =
      λ x lt.
        let there =
          framed-payload (packet_header_bytes hdr) load (garbage 1) (mail_hdr.length + 12) x lt in
        buffer_byte (garbage' 0) packet r.world.network.inbox (mail_hdr.length + 12) x (omega arith)
          lt
        ∙ there in
    let mail_read =
      mail_header_of-same _ load (λ x lt. held x (omega arith))
      ∙ mail_header_of-packed mail_hdr contents (garbage 0) to from (omega arith) in
    let e'' = postal_delivery-step garbage' taken.world mail_hdr mail_read box' short in
    (
      s',
      taken,
      packet,
      _,
      delivered garbage' mail_hdr taken.world,
      e,
      sent,
      e',
      e'',
      update-at r.world.boxes mail_hdr.to _,
      refl,
      refl,
      λ x lt.
          contents_byte (worker_buffer (garbage' 0) taken.world.network) (garbage' 1)
            mail_hdr.length x lt
          ∙ held (12 + x) (omega arith)
          ∙ framed-payload (mail_header_bytes mail_hdr) contents (garbage 0) mail_hdr.length x lt,
      λ b other. ground (arith, other),
      refl,
    )
