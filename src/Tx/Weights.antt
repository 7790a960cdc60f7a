-- ===== src/Tx/Weights.antt =====
-- How many parts the packets of the heap can have, before and after a part is sent.
use lightmqtt.Prelude.{ℕ, zero, suc, ◌*◌, ◌≡◌, refl, sym, ap, ◌∙◌, arith, true}
use lightmqtt.Prelude.{Option, none, some, List, [], ◌∷◌, get_elem?, set}
use lightmqtt.Encode.{EncodeBuffer, Encoded, Builder, ◌>>=◌, encode_buffer_encode}
use lightmqtt.Strings.{nat_of, string_encode}
use lightmqtt.Packet.{Encoder, part_encoder}
use lightmqtt.Store.{StoreValue}
use lightmqtt.Connect.{
  Connect, connect_encode_fixed_header, connect_encode_variable_header,
  connect_encode_payload_client_id, connect_encode_payload_will_topic,
  connect_encode_payload_will_message, connect_encode_payload_user_name,
  connect_encode_payload_password,
}
use lightmqtt.Publish.{
  Publish, publish_encode_fixed_header, publish_encode_topic, publish_encode_packet_id,
  publish_encode_payload,
}
use lightmqtt.Acks.{
  puback_build, pubrec_build, pubrel_build, pubcomp_build, pingreq_build, disconnect_build,
  puback_encode_fixed_header, pubrec_encode_fixed_header, pubrel_encode_fixed_header,
  pubcomp_encode_fixed_header, pingreq_encode_fixed_header, disconnect_encode_fixed_header,
}
use lightmqtt.Subscribe.{
  subscribe_build_header_subscribe, subscribe_build_header_unsubscribe, subscribe_build_qos,
  Subscribe, current_subscription, subscribe_encode_topic, subscribe_encode_qos,
  subscribe_encode_header_subscribe, subscribe_encode_header_unsubscribe,
}
use lightmqtt.Tx.Parts.{
  Object, connect_object, subscribe_object, publish_object, Heap, Part, as_connect, as_publish,
  as_subscribe, load, connect_fixed_header, connect_variable_header, connect_client_id,
  connect_will_topic, connect_will_message, connect_user_name, connect_password,
  publish_fixed_header, publish_topic, publish_packet_id, publish_payload, puback_fixed_header,
  pubrec_fixed_header, pubrel_fixed_header, pubcomp_fixed_header, pingreq_fixed_header,
  disconnect_fixed_header, header_subscribe, header_unsubscribe, subscribe_qos, subscribe_topic,
  on_object, on_nothing, run_part,
}

-- The parts behind the header for each subscription; other packets have seven at most.
abbrev pub weight : {W : Type 0} → Object W → ℕ
weight (subscribe_object s) = 2 * nat_of s.count
weight _ = 0

abbrev pub weights : {W : Type 0} → List (Object W) → List ℕ
weights [] = []
weights (o ∷ os) = weight o ∷ weights os

abbrev pub weight_at : List ℕ → Option ℕ → ℕ
weight_at ws none = 0
weight_at ws (some at) = elim (get_elem? ws at) [ none ↦ 0 | some w ↦ w ]

pub weights-set :
    {W : Type 0} (os : List (Object W)) (i : ℕ) (o o' : Object W)
    → get_elem? os i ≡ some o
    → weight o' ≡ weight o
    → weights (set os i o') ≡ weights os
weights-set [] i o o' e h = refl
weights-set (x ∷ os) zero o o' e h = ground (arith, h)
weights-set (x ∷ os) (suc i) o o' e h = ap (λ ws. weight x ∷ ws) (weights-set os i o o' e h)

encode_rest :
    {A : Type 0} (builder : Builder) (b : EncodeBuffer) (a : A) (offset room : ℕ) (e : Encoded A)
    → encode_buffer_encode builder b a offset room ≡ some e
    → e.rest ≡ a
unfolding encode_buffer_encode
encode_rest builder b a offset room e h = ground (arith, h)

-- An encoder that keeps the weight of its object.
abbrev Keeps : {A W : Type 0} → (A → Object W) → Encoder A W → Type 0
Keeps {A} {W} object encoder =
    (a : A) (b : EncodeBuffer) (offset room : ℕ) (w : W) (e : Encoded (A × W))
    → encoder a b offset room w ≡ some e
    → weight (object e.rest.0) ≡ weight (object a)

pub bind_some :
    {A B : Type 0} (o : Option A) (f : A → Option B) {b : B}
    → (o >>= f) ≡ some b
    → (a : A) × (o ≡ some a) × (f a ≡ some b)
bind_some none f h = cc
bind_some (some a) f h = (a, refl, h)

topic-Keeps : {W : Type 0} → Keeps {W = W} subscribe_object subscribe_encode_topic
unfolding subscribe_encode_topic
topic-Keeps a b offset room w e h =
    let ((i, sub), _, h') = bind_some (current_subscription a) _ h in
    let (e', _, h'') = bind_some (string_encode sub.topic true true offset room b w) _ h' in
    ground (arith, h'')

part-Keeps :
    {A W : Type 0} (object : A → Object W) (builder : A → Builder)
    → Keeps object (part_encoder builder)
part-Keeps object builder a b offset room w e h =
    ap (λ r. weight (object r.0)) (encode_rest (builder a) b (a, w) offset room e h)

on_object-weights :
    {A W : Type 0} (view : Object W → Option A) (object : A → Object W) (value : Option ℕ)
    (encoder : Encoder A W) (b : EncodeBuffer) (offset room : ℕ) (heap : Heap W)
    (e : Encoded (Heap W))
    → ((o : Object W) (a : A) → view o ≡ some a → weight (object a) ≡ weight o)
    → Keeps object encoder
    → on_object view object value encoder b offset room heap ≡ some e
    → weights e.rest.objects ≡ weights heap.objects
unfolding on_object
on_object-weights view object none encoder b offset room heap e same k h = cc
on_object-weights view object (some at) encoder b offset room heap e same k h =
    let ((i, a), l, h1) = bind_some (load view heap (some at)) _ h in
    let (o, got, l1) = bind_some (get_elem? heap.objects at) _ l in
    let (a', is, l2) = bind_some (view o) _ l1 in
    let (e', sent, h2) = bind_some (encoder a b offset room heap.world) _ h1 in
    let place : at ≡ i = ground (arith, l2) in
    let view_eq : a' ≡ a = ground (arith, l2) in
    let heavy : weight (object e'.rest.0) ≡ weight o =
      k a b offset room heap.world e' sent
      ∙ ap (λ x. weight (object x)) (sym view_eq)
      ∙ same o a' is in
    let kept : weights (set heap.objects at (object e'.rest.0)) ≡ weights heap.objects =
      weights-set heap.objects at o (object e'.rest.0) got heavy in
    ground (arith, h2, place, kept)

on_nothing-weights :
    {W : Type 0} (builder : Builder) (b : EncodeBuffer) (offset room : ℕ) (heap : Heap W)
    (e : Encoded (Heap W))
    → on_nothing (part_encoder (λ _. builder)) b offset room heap ≡ some e
    → weights e.rest.objects ≡ weights heap.objects
unfolding on_nothing
on_nothing-weights builder b offset room heap e h =
    let (e', sent, h1) =
      bind_some (encode_buffer_encode builder b (heap.objects, heap.world) offset room) _ h in
    let kept : e'.rest.0 ≡ heap.objects =
      ap (λ r. r.0) (encode_rest builder b (heap.objects, heap.world) offset room e' sent) in
    ground (arith, h1, kept)

connect_view :
    {W : Type 0} (o : Object W) (c : Connect W)
    → as_connect o ≡ some c
    → weight (connect_object c) ≡ weight o
connect_view (connect_object d) c e = refl
connect_view (subscribe_object s) c e = cc
connect_view (publish_object p) c e = cc

pub subscribe_view :
    {W : Type 0} (o : Object W) (s : Subscribe W)
    → as_subscribe o ≡ some s
    → weight (subscribe_object s) ≡ weight o
subscribe_view (connect_object d) c e = cc
subscribe_view (subscribe_object s) c e = ground arith
subscribe_view (publish_object p) c e = cc

pub publish_view :
    {W : Type 0} (o : Object W) (p : Publish W)
    → as_publish o ≡ some p
    → weight (publish_object p) ≡ weight o
publish_view (connect_object d) c e = cc
publish_view (subscribe_object s) c e = cc
publish_view (publish_object p) c e = refl

connect_part :
    {W : Type 0} (encoder : Encoder (Connect W) W) (value : Option ℕ) (b : EncodeBuffer)
    (offset room : ℕ) (heap : Heap W) (e : Encoded (Heap W))
    → on_object as_connect connect_object value encoder b offset room heap ≡ some e
    → weights e.rest.objects ≡ weights heap.objects
connect_part encoder value b offset room heap e h =
    on_object-weights as_connect connect_object value encoder b offset room heap e connect_view
      (λ _ _ _ _ _ _ _. refl) h

publish_part :
    {W : Type 0} (encoder : Encoder (Publish W) W) (value : Option ℕ) (b : EncodeBuffer)
    (offset room : ℕ) (heap : Heap W) (e : Encoded (Heap W))
    → on_object as_publish publish_object value encoder b offset room heap ≡ some e
    → weights e.rest.objects ≡ weights heap.objects
publish_part encoder value b offset room heap e h =
    on_object-weights as_publish publish_object value encoder b offset room heap e publish_view
      (λ _ _ _ _ _ _ _. refl) h

-- Whatever part is sent, the objects keep their weights.
pub run_part-weights :
    {W : Type 0} (part : Part) (v : StoreValue) (b : EncodeBuffer) (offset room : ℕ) (heap : Heap W)
    (e : Encoded (Heap W))
    → run_part part v b offset room heap ≡ some e
    → weights e.rest.objects ≡ weights heap.objects
unfolding run_part puback_encode_fixed_header pubrec_encode_fixed_header pubrel_encode_fixed_header
    pubcomp_encode_fixed_header pingreq_encode_fixed_header disconnect_encode_fixed_header
    subscribe_encode_header_subscribe subscribe_encode_header_unsubscribe subscribe_encode_qos
run_part-weights connect_fixed_header v b offset room heap e h =
    connect_part connect_encode_fixed_header v.value b offset room heap e h
run_part-weights connect_variable_header v b offset room heap e h =
    connect_part connect_encode_variable_header v.value b offset room heap e h
run_part-weights connect_client_id v b offset room heap e h =
    connect_part connect_encode_payload_client_id v.value b offset room heap e h
run_part-weights connect_will_topic v b offset room heap e h =
    connect_part connect_encode_payload_will_topic v.value b offset room heap e h
run_part-weights connect_will_message v b offset room heap e h =
    connect_part connect_encode_payload_will_message v.value b offset room heap e h
run_part-weights connect_user_name v b offset room heap e h =
    connect_part connect_encode_payload_user_name v.value b offset room heap e h
run_part-weights connect_password v b offset room heap e h =
    connect_part connect_encode_payload_password v.value b offset room heap e h
run_part-weights header_subscribe v b offset room heap e h =
    on_object-weights as_subscribe subscribe_object v.value _ b offset room heap e subscribe_view
      (part-Keeps subscribe_object (subscribe_build_header_subscribe v.packet_id)) h
run_part-weights header_unsubscribe v b offset room heap e h =
    on_object-weights as_subscribe subscribe_object v.value _ b offset room heap e subscribe_view
      (part-Keeps subscribe_object (subscribe_build_header_unsubscribe v.packet_id)) h
run_part-weights subscribe_qos v b offset room heap e h =
    on_object-weights as_subscribe subscribe_object v.value _ b offset room heap e subscribe_view
      (part-Keeps subscribe_object subscribe_build_qos) h
run_part-weights subscribe_topic v b offset room heap e h =
    on_object-weights as_subscribe subscribe_object v.value _ b offset room heap e subscribe_view
      topic-Keeps h
run_part-weights publish_fixed_header v b offset room heap e h =
    publish_part publish_encode_fixed_header v.value b offset room heap e h
run_part-weights publish_topic v b offset room heap e h =
    publish_part publish_encode_topic v.value b offset room heap e h
run_part-weights publish_packet_id v b offset room heap e h =
    publish_part (publish_encode_packet_id v.packet_id) v.value b offset room heap e h
run_part-weights publish_payload v b offset room heap e h =
    publish_part publish_encode_payload v.value b offset room heap e h
run_part-weights puback_fixed_header v b offset room heap e h =
    on_nothing-weights (puback_build v.packet_id) b offset room heap e h
run_part-weights pubrec_fixed_header v b offset room heap e h =
    on_nothing-weights (pubrec_build v.packet_id) b offset room heap e h
run_part-weights pubrel_fixed_header v b offset room heap e h =
    on_nothing-weights (pubrel_build v.packet_id) b offset room heap e h
run_part-weights pubcomp_fixed_header v b offset room heap e h =
    on_nothing-weights (pubcomp_build v.packet_id) b offset room heap e h
run_part-weights pingreq_fixed_header v b offset room heap e h =
    on_nothing-weights pingreq_build b offset room heap e h
run_part-weights disconnect_fixed_header v b offset room heap e h =
    on_nothing-weights disconnect_build b offset room heap e h
