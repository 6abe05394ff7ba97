-- ===== src/Network.antt =====
-- machine/network.cc and network.h, network/post.cc and post.h: a machine on the network and its post
-- office. A header is three words, the lowest byte first. A mail box is the sequence that its
-- `SynchList` stands for; the lock and the waits around it are calls of the kernel's semaphores.
pub mod Delivery
use cop5614nachos.Base.{
  ℕ, ◌+◌, ◌-◌, ◌*◌, Bool, true, false, not, ◌&&◌, Option, none, some, List, [], ◌∷◌, ◌++◌, ltb, leb,
  ◌==◌, assert, ◌>>=◌, ◌>>◌, if◌then◌else◌, Array, update, bcopy,
}
use cop5614nachos.Threads.Kernel.{Kernel, v}
use cop5614nachos.Machine.Interrupt.{
  network_send_int, network_recv_int, Statistics, Interrupt, schedule,
}
use cop5614nachos.Filesys.Image.{bytes_of, words_of}

abbrev pub header_size : ℕ
header_size = 12

abbrev pub max_wire_size : ℕ
max_wire_size = 64

abbrev pub max_packet_size : ℕ
max_packet_size = max_wire_size - header_size

abbrev pub max_mail_size : ℕ
max_mail_size = max_packet_size - header_size

abbrev pub network_time : ℕ
network_time = 100

pub record PacketHeader : Type 0 where
  pub to : ℕ
  pub from : ℕ
  pub length : ℕ

pub record MailHeader : Type 0 where
  pub to : ℕ
  pub from : ℕ
  pub length : ℕ

-- The words of a header, and a header at the front of a buffer.
abbrev pub three_words : ℕ → ℕ → ℕ → Array ℕ
three_words to from length i = if i == 0 then to else if i == 1 then from else length

unfoldable pub packet_header_bytes : PacketHeader → Array ℕ
unfolding bytes_of
packet_header_bytes h = bytes_of (three_words h.to h.from h.length)

unfoldable pub packet_header_of : Array ℕ → PacketHeader
packet_header_of buffer = record {
  to = words_of buffer 0;
  from = words_of buffer 1;
  length = words_of buffer 2;
}

unfoldable pub mail_header_bytes : MailHeader → Array ℕ
unfolding bytes_of
mail_header_bytes h = bytes_of (three_words h.to h.from h.length)

unfoldable pub mail_header_of : Array ℕ → MailHeader
mail_header_of buffer = record {
  to = words_of buffer 0;
  from = words_of buffer 1;
  length = words_of buffer 2;
}

pub record Mail : Type 0 where
  pub pkt_hdr : PacketHeader
  pub mail_hdr : MailHeader
  pub contents : Array ℕ

-- The constructor of `Mail`; `garbage` is what a new one holds.
unfoldable pub mail : PacketHeader → MailHeader → Array ℕ → ℕ → Array ℕ → Option Mail
mail pkt_h mail_h buffer at garbage = do
  assert (leb mail_h.length max_mail_size)
  some (record {
    pkt_hdr = pkt_h;
    mail_hdr = mail_h;
    contents = bcopy buffer at garbage 0 mail_h.length;
  })

-- The device: `arrivals` are the packets in the socket, `sent` those given to the socket, with the
-- machines they are for.
pub record Network : Type 0 where
  pub ident : ℕ
  pub send_busy : Bool
  pub in_hdr : PacketHeader
  pub inbox : Array ℕ
  pub arrivals : List (Array ℕ)
  pub sent : List (ℕ × Array ℕ)

pub record PostOffice : Type 0 where
  pub network : Network
  pub net_addr : ℕ
  pub num_boxes : ℕ
  pub boxes : Array (List Mail)
  pub kernel : Kernel
  pub message_available : ℕ
  pub message_sent : ℕ

-- The routines that the network gives to `Schedule`.
pub data NetworkRoutine : Type 0 where
  network_read_poll network_send_done : NetworkRoutine

abbrev pub Node : Type 0
Node = Interrupt NetworkRoutine PostOffice

abbrev pub in_network : (Network → Network) → Node → Node
in_network f s = record s { world = record (s.world) { network = f s.world.network } }

-- The packet on the wire, in a new buffer.
abbrev pub wire : PacketHeader → Array ℕ → Array ℕ → Array ℕ
wire hdr payload garbage =
    bcopy payload 0 (bcopy (packet_header_bytes hdr) 0 garbage 0 header_size) header_size hdr.length

-- `lost` is the outcome of the draw against `chanceToWork`.
unfoldable pub network_send : Bool → PacketHeader → Array ℕ → Array ℕ → Node → Option Node
unfolding schedule
network_send lost hdr payload garbage s = do
  let net : Network = s.world.network
  assert (
      not net.send_busy
      && ltb 0 hdr.length
      && leb hdr.length max_packet_size
      && hdr.from == net.ident)
  s' ← schedule network_send_done 0 network_time network_send_int s
  some (
      if lost
      then s'
      else in_network (λ n. record n { sent = n.sent ++ (hdr.to, wire hdr payload garbage) ∷ [] })
          s')

-- `SendDone`, and `PacketSent` of the post office.
unfoldable pub send_done : Node → Node
unfolding v
send_done s = record s {
  stats = record (s.stats) { num_packets_sent = s.stats.num_packets_sent + 1 };
  world = record (s.world) {
    network = record (s.world.network) { send_busy = false };
    kernel = v s.world.message_sent s.world.kernel;
  };
}

-- A packet from the socket goes to the inbox, and `IncomingPacket` wakes the postal worker.
unfoldable pub take_packet : Array ℕ → List (Array ℕ) → Node → Option Node
unfolding v
take_packet buffer rest s = do
  let hdr : PacketHeader = packet_header_of buffer
  assert (hdr.to == s.world.network.ident && leb hdr.length max_packet_size)
  some (record s {
    stats = record (s.stats) { num_packets_recvd = s.stats.num_packets_recvd + 1 };
    world = record (s.world) {
      network = record (s.world.network) {
        in_hdr = hdr;
        inbox = bcopy buffer header_size s.world.network.inbox 0 hdr.length;
        arrivals = rest;
      };
      kernel = v s.world.message_available s.world.kernel;
    };
  })

unfoldable pub check_pkt_avail : Node → Option Node
unfolding schedule take_packet
check_pkt_avail s = do
  s' ← schedule network_read_poll 0 network_time network_recv_int s
  if not (s'.world.network.in_hdr.length == 0) then some s' else elim s'.world.network.arrivals [
    | [] ↦ some s'
    | buffer ∷ rest ↦ take_packet buffer rest s'
  ]

-- The header, the buffer and the device after `Receive`.
unfoldable pub network_receive : Array ℕ → Network → PacketHeader × Array ℕ × Network
network_receive buffer n = (
  n.in_hdr,
  if n.in_hdr.length == 0 then buffer else bcopy n.inbox 0 buffer 0 n.in_hdr.length,
  record n { in_hdr = record (n.in_hdr) { length = 0 } },
)

-- `MailBox::Put`.
unfoldable pub put :
    PacketHeader → MailHeader → Array ℕ → ℕ → Array ℕ → List Mail → Option (List Mail)
unfolding mail
put pkt_hdr mail_hdr buffer at garbage box = do
  m ← mail pkt_hdr mail_hdr buffer at garbage
  some (box ++ m ∷ [])

-- `MailBox::Get`: the caller waits while the box is empty, `none`. Otherwise the headers, the
-- caller's buffer and the rest of the box.
unfoldable pub get : Array ℕ → List Mail → Option (PacketHeader × MailHeader × Array ℕ × List Mail)
get into [] = none
get into (m ∷ box) = some (m.pkt_hdr, m.mail_hdr, bcopy m.contents 0 into 0 m.mail_hdr.length, box)

-- A round of `PostalDelivery`, from the end of its `P` on; `garbage` is its buffer and a new mail.
unfoldable pub postal_delivery : Array (Array ℕ) → PostOffice → Option PostOffice
unfolding network_receive put
postal_delivery garbage po = do
  let (pkt_hdr, buffer, network) = network_receive (garbage 0) po.network
  let mail_hdr : MailHeader = mail_header_of buffer
  assert (ltb mail_hdr.to po.num_boxes)
  assert (leb mail_hdr.length max_mail_size)
  box ← put pkt_hdr mail_hdr buffer header_size (garbage 1) (po.boxes mail_hdr.to)
  some (record po { network = network; boxes = update po.boxes mail_hdr.to box })

-- The packet's data: the header of the mail, then its own data.
abbrev pub packed : MailHeader → Array ℕ → Array ℕ → Array ℕ
packed mail_hdr contents garbage =
    bcopy contents 0 (bcopy (mail_header_bytes mail_hdr) 0 garbage 0 header_size) header_size
      mail_hdr.length

-- `PostOffice::Send` up to the wait for the packet to be sent.
unfoldable pub post_send :
    Bool → PacketHeader → MailHeader → Array ℕ → Array (Array ℕ) → Node → Option Node
unfolding network_send
post_send lost pkt_hdr mail_hdr contents garbage s = do
  assert (leb mail_hdr.length max_mail_size)
  assert (ltb mail_hdr.to s.world.num_boxes)
  let hdr : PacketHeader = record pkt_hdr {
    from = s.world.net_addr;
    length = mail_hdr.length + header_size;
  }
  network_send lost hdr (packed mail_hdr contents (garbage 0)) (garbage 1) s

-- `PostOffice::Receive`; an inner `none` is the wait for mail.
unfoldable pub post_receive :
    ℕ → Array ℕ → PostOffice → Option (Option (PacketHeader × MailHeader × Array ℕ × PostOffice))
unfolding get
post_receive box into po = do
  assert (ltb box po.num_boxes)
  elim (get into (po.boxes box)) [
    | none ↦ some none
    | some (pkt_hdr, mail_hdr, bytes, rest) ↦ do
      assert (leb mail_hdr.length max_mail_size)
      some (some (pkt_hdr, mail_hdr, bytes, record po { boxes = update po.boxes box rest }))
  ]
