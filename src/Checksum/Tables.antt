-- ===== src/Checksum/Tables.antt =====
-- The three lookup tables of rte_checksum.c.
use platform_rte.Prelude.{ℕ, List, [], ◌∷◌}

-- `g_crc64_ertms_table`
abbrev pub ertms_table : List ℕ
ertms_table =
    0x0000000000000000 ∷ 0x0b2cab2af58bdc79 ∷ 0x16595655eb17b8f2 ∷ 0x1d75fd7f1e9c648b
    ∷ 0x162c6bdb0aaebb67 ∷ 0x1d00c0f1ff25671e ∷ 0x00753d8ee1b90395 ∷ 0x0b5996a41432dfec
    ∷ 0x16c610c6c9dcbc4d ∷ 0x1deabbec3c576034 ∷ 0x009f469322cb04bf ∷ 0x0bb3edb9d740d8c6
    ∷ 0x00ea7b1dc372072a ∷ 0x0bc6d03736f9db53 ∷ 0x16b32d482865bfd8 ∷ 0x1d9f8662ddee63a1
    ∷ 0x1712e6fd4f38b219 ∷ 0x1c3e4dd7bab36e60 ∷ 0x014bb0a8a42f0aeb ∷ 0x0a671b8251a4d692
    ∷ 0x013e8d264596097e ∷ 0x0a12260cb01dd507 ∷ 0x1767db73ae81b18c ∷ 0x1c4b70595b0a6df5
    ∷ 0x01d4f63b86e40e54 ∷ 0x0af85d11736fd22d ∷ 0x178da06e6df3b6a6 ∷ 0x1ca10b4498786adf
    ∷ 0x17f89de08c4ab533 ∷ 0x1cd436ca79c1694a ∷ 0x01a1cbb5675d0dc1 ∷ 0x0a8d609f92d6d1b8
    ∷ 0x14bb0a8a42f0aeb1 ∷ 0x1f97a1a0b77b72c8 ∷ 0x02e25cdfa9e71643 ∷ 0x09cef7f55c6cca3a
    ∷ 0x02976151485e15d6 ∷ 0x09bbca7bbdd5c9af ∷ 0x14ce3704a349ad24 ∷ 0x1fe29c2e56c2715d
    ∷ 0x027d1a4c8b2c12fc ∷ 0x0951b1667ea7ce85 ∷ 0x14244c19603baa0e ∷ 0x1f08e73395b07677
    ∷ 0x145171978182a99b ∷ 0x1f7ddabd740975e2 ∷ 0x020827c26a951169 ∷ 0x09248ce89f1ecd10
    ∷ 0x03a9ec770dc81ca8 ∷ 0x0885475df843c0d1 ∷ 0x15f0ba22e6dfa45a ∷ 0x1edc110813547823
    ∷ 0x158587ac0766a7cf ∷ 0x1ea92c86f2ed7bb6 ∷ 0x03dcd1f9ec711f3d ∷ 0x08f07ad319fac344
    ∷ 0x156ffcb1c414a0e5 ∷ 0x1e43579b319f7c9c ∷ 0x0336aae42f031817 ∷ 0x081a01ceda88c46e
    ∷ 0x0343976aceba1b82 ∷ 0x086f3c403b31c7fb ∷ 0x151ac13f25ada370 ∷ 0x1e366a15d0267f09
    ∷ 0x13e8d264596097e1 ∷ 0x18c4794eaceb4b98 ∷ 0x05b18431b2772f13 ∷ 0x0e9d2f1b47fcf36a
    ∷ 0x05c4b9bf53ce2c86 ∷ 0x0ee81295a645f0ff ∷ 0x139defeab8d99474 ∷ 0x18b144c04d52480d
    ∷ 0x052ec2a290bc2bac ∷ 0x0e0269886537f7d5 ∷ 0x137794f77bab935e ∷ 0x185b3fdd8e204f27
    ∷ 0x1302a9799a1290cb ∷ 0x182e02536f994cb2 ∷ 0x055bff2c71052839 ∷ 0x0e775406848ef440
    ∷ 0x04fa3499165825f8 ∷ 0x0fd69fb3e3d3f981 ∷ 0x12a362ccfd4f9d0a ∷ 0x198fc9e608c44173
    ∷ 0x12d65f421cf69e9f ∷ 0x19faf468e97d42e6 ∷ 0x048f0917f7e1266d ∷ 0x0fa3a23d026afa14
    ∷ 0x123c245fdf8499b5 ∷ 0x19108f752a0f45cc ∷ 0x0465720a34932147 ∷ 0x0f49d920c118fd3e
    ∷ 0x04104f84d52a22d2 ∷ 0x0f3ce4ae20a1feab ∷ 0x124919d13e3d9a20 ∷ 0x1965b2fbcbb64659
    ∷ 0x0753d8ee1b903950 ∷ 0x0c7f73c4ee1be529 ∷ 0x110a8ebbf08781a2 ∷ 0x1a262591050c5ddb
    ∷ 0x117fb335113e8237 ∷ 0x1a53181fe4b55e4e ∷ 0x0726e560fa293ac5 ∷ 0x0c0a4e4a0fa2e6bc
    ∷ 0x1195c828d24c851d ∷ 0x1ab9630227c75964 ∷ 0x07cc9e7d395b3def ∷ 0x0ce03557ccd0e196
    ∷ 0x07b9a3f3d8e23e7a ∷ 0x0c9508d92d69e203 ∷ 0x11e0f5a633f58688 ∷ 0x1acc5e8cc67e5af1
    ∷ 0x10413e1354a88b49 ∷ 0x1b6d9539a1235730 ∷ 0x06186846bfbf33bb ∷ 0x0d34c36c4a34efc2
    ∷ 0x066d55c85e06302e ∷ 0x0d41fee2ab8dec57 ∷ 0x1034039db51188dc ∷ 0x1b18a8b7409a54a5
    ∷ 0x06872ed59d743704 ∷ 0x0dab85ff68ffeb7d ∷ 0x10de788076638ff6 ∷ 0x1bf2d3aa83e8538f
    ∷ 0x10ab450e97da8c63 ∷ 0x1b87ee246251501a ∷ 0x06f2135b7ccd3491 ∷ 0x0ddeb8718946e8e8
    ∷ 0x1d4f63b86e40e541 ∷ 0x1663c8929bcb3938 ∷ 0x0b1635ed85575db3 ∷ 0x003a9ec770dc81ca
    ∷ 0x0b63086364ee5e26 ∷ 0x004fa3499165825f ∷ 0x1d3a5e368ff9e6d4 ∷ 0x1616f51c7a723aad
    ∷ 0x0b89737ea79c590c ∷ 0x00a5d85452178575 ∷ 0x1dd0252b4c8be1fe ∷ 0x16fc8e01b9003d87
    ∷ 0x1da518a5ad32e26b ∷ 0x1689b38f58b93e12 ∷ 0x0bfc4ef046255a99 ∷ 0x00d0e5dab3ae86e0
    ∷ 0x0a5d854521785758 ∷ 0x01712e6fd4f38b21 ∷ 0x1c04d310ca6fefaa ∷ 0x1728783a3fe433d3
    ∷ 0x1c71ee9e2bd6ec3f ∷ 0x175d45b4de5d3046 ∷ 0x0a28b8cbc0c154cd ∷ 0x010413e1354a88b4
    ∷ 0x1c9b9583e8a4eb15 ∷ 0x17b73ea91d2f376c ∷ 0x0ac2c3d603b353e7 ∷ 0x01ee68fcf6388f9e
    ∷ 0x0ab7fe58e20a5072 ∷ 0x019b557217818c0b ∷ 0x1ceea80d091de880 ∷ 0x17c20327fc9634f9
    ∷ 0x09f469322cb04bf0 ∷ 0x02d8c218d93b9789 ∷ 0x1fad3f67c7a7f302 ∷ 0x1481944d322c2f7b
    ∷ 0x1fd802e9261ef097 ∷ 0x14f4a9c3d3952cee ∷ 0x098154bccd094865 ∷ 0x02adff963882941c
    ∷ 0x1f3279f4e56cf7bd ∷ 0x141ed2de10e72bc4 ∷ 0x096b2fa10e7b4f4f ∷ 0x0247848bfbf09336
    ∷ 0x091e122fefc24cda ∷ 0x0232b9051a4990a3 ∷ 0x1f47447a04d5f428 ∷ 0x146bef50f15e2851
    ∷ 0x1ee68fcf6388f9e9 ∷ 0x15ca24e596032590 ∷ 0x08bfd99a889f411b ∷ 0x039372b07d149d62
    ∷ 0x08cae4146926428e ∷ 0x03e64f3e9cad9ef7 ∷ 0x1e93b2418231fa7c ∷ 0x15bf196b77ba2605
    ∷ 0x08209f09aa5445a4 ∷ 0x030c34235fdf99dd ∷ 0x1e79c95c4143fd56 ∷ 0x15556276b4c8212f
    ∷ 0x1e0cf4d2a0fafec3 ∷ 0x15205ff8557122ba ∷ 0x0855a2874bed4631 ∷ 0x037909adbe669a48
    ∷ 0x0ea7b1dc372072a0 ∷ 0x058b1af6c2abaed9 ∷ 0x18fee789dc37ca52 ∷ 0x13d24ca329bc162b
    ∷ 0x188bda073d8ec9c7 ∷ 0x13a7712dc80515be ∷ 0x0ed28c52d6997135 ∷ 0x05fe27782312ad4c
    ∷ 0x1861a11afefcceed ∷ 0x134d0a300b771294 ∷ 0x0e38f74f15eb761f ∷ 0x05145c65e060aa66
    ∷ 0x0e4dcac1f452758a ∷ 0x056161eb01d9a9f3 ∷ 0x18149c941f45cd78 ∷ 0x133837beeace1101
    ∷ 0x19b557217818c0b9 ∷ 0x1299fc0b8d931cc0 ∷ 0x0fec0174930f784b ∷ 0x04c0aa5e6684a432
    ∷ 0x0f993cfa72b67bde ∷ 0x04b597d0873da7a7 ∷ 0x19c06aaf99a1c32c ∷ 0x12ecc1856c2a1f55
    ∷ 0x0f7347e7b1c47cf4 ∷ 0x045feccd444fa08d ∷ 0x192a11b25ad3c406 ∷ 0x1206ba98af58187f
    ∷ 0x195f2c3cbb6ac793 ∷ 0x127387164ee11bea ∷ 0x0f067a69507d7f61 ∷ 0x042ad143a5f6a318
    ∷ 0x1a1cbb5675d0dc11 ∷ 0x1130107c805b0068 ∷ 0x0c45ed039ec764e3 ∷ 0x076946296b4cb89a
    ∷ 0x0c30d08d7f7e6776 ∷ 0x071c7ba78af5bb0f ∷ 0x1a6986d89469df84 ∷ 0x11452df261e203fd
    ∷ 0x0cdaab90bc0c605c ∷ 0x07f600ba4987bc25 ∷ 0x1a83fdc5571bd8ae ∷ 0x11af56efa29004d7
    ∷ 0x1af6c04bb6a2db3b ∷ 0x11da6b6143290742 ∷ 0x0caf961e5db563c9 ∷ 0x07833d34a83ebfb0
    ∷ 0x0d0e5dab3ae86e08 ∷ 0x0622f681cf63b271 ∷ 0x1b570bfed1ffd6fa ∷ 0x107ba0d424740a83
    ∷ 0x1b2236703046d56f ∷ 0x100e9d5ac5cd0916 ∷ 0x0d7b6025db516d9d ∷ 0x0657cb0f2edab1e4
    ∷ 0x1bc84d6df334d245 ∷ 0x10e4e64706bf0e3c ∷ 0x0d911b3818236ab7 ∷ 0x06bdb012eda8b6ce
    ∷ 0x0de426b6f99a6922 ∷ 0x06c88d9c0c11b55b ∷ 0x1bbd70e3128dd1d0 ∷ 0x1091dbc9e7060da9 ∷ []

-- `g_crc64_iso_table`
abbrev pub iso_table : List ℕ
iso_table =
    0x00 ∷ 0x07 ∷ 0x0e ∷ 0x09 ∷ 0x1c ∷ 0x1b ∷ 0x12 ∷ 0x15 ∷ 0x0f ∷ 0x08 ∷ 0x01 ∷ 0x06 ∷ 0x13 ∷ 0x14
    ∷ 0x1d ∷ 0x1a ∷ 0x1e ∷ 0x19 ∷ 0x10 ∷ 0x17 ∷ 0x02 ∷ 0x05 ∷ 0x0c ∷ 0x0b ∷ 0x11 ∷ 0x16 ∷ 0x1f
    ∷ 0x18 ∷ 0x0d ∷ 0x0a ∷ 0x03 ∷ 0x04 ∷ 0x0b ∷ 0x0c ∷ 0x05 ∷ 0x02 ∷ 0x17 ∷ 0x10 ∷ 0x19 ∷ 0x1e
    ∷ 0x04 ∷ 0x03 ∷ 0x0a ∷ 0x0d ∷ 0x18 ∷ 0x1f ∷ 0x16 ∷ 0x11 ∷ 0x15 ∷ 0x12 ∷ 0x1b ∷ 0x1c ∷ 0x09
    ∷ 0x0e ∷ 0x07 ∷ 0x00 ∷ 0x1a ∷ 0x1d ∷ 0x14 ∷ 0x13 ∷ 0x06 ∷ 0x01 ∷ 0x08 ∷ 0x0f ∷ 0x16 ∷ 0x11
    ∷ 0x18 ∷ 0x1f ∷ 0x0a ∷ 0x0d ∷ 0x04 ∷ 0x03 ∷ 0x19 ∷ 0x1e ∷ 0x17 ∷ 0x10 ∷ 0x05 ∷ 0x02 ∷ 0x0b
    ∷ 0x0c ∷ 0x08 ∷ 0x0f ∷ 0x06 ∷ 0x01 ∷ 0x14 ∷ 0x13 ∷ 0x1a ∷ 0x1d ∷ 0x07 ∷ 0x00 ∷ 0x09 ∷ 0x0e
    ∷ 0x1b ∷ 0x1c ∷ 0x15 ∷ 0x12 ∷ 0x1d ∷ 0x1a ∷ 0x13 ∷ 0x14 ∷ 0x01 ∷ 0x06 ∷ 0x0f ∷ 0x08 ∷ 0x12
    ∷ 0x15 ∷ 0x1c ∷ 0x1b ∷ 0x0e ∷ 0x09 ∷ 0x00 ∷ 0x07 ∷ 0x03 ∷ 0x04 ∷ 0x0d ∷ 0x0a ∷ 0x1f ∷ 0x18
    ∷ 0x11 ∷ 0x16 ∷ 0x0c ∷ 0x0b ∷ 0x02 ∷ 0x05 ∷ 0x10 ∷ 0x17 ∷ 0x1e ∷ 0x19 ∷ 0x1b ∷ 0x1c ∷ 0x15
    ∷ 0x12 ∷ 0x07 ∷ 0x00 ∷ 0x09 ∷ 0x0e ∷ 0x14 ∷ 0x13 ∷ 0x1a ∷ 0x1d ∷ 0x08 ∷ 0x0f ∷ 0x06 ∷ 0x01
    ∷ 0x05 ∷ 0x02 ∷ 0x0b ∷ 0x0c ∷ 0x19 ∷ 0x1e ∷ 0x17 ∷ 0x10 ∷ 0x0a ∷ 0x0d ∷ 0x04 ∷ 0x03 ∷ 0x16
    ∷ 0x11 ∷ 0x18 ∷ 0x1f ∷ 0x10 ∷ 0x17 ∷ 0x1e ∷ 0x19 ∷ 0x0c ∷ 0x0b ∷ 0x02 ∷ 0x05 ∷ 0x1f ∷ 0x18
    ∷ 0x11 ∷ 0x16 ∷ 0x03 ∷ 0x04 ∷ 0x0d ∷ 0x0a ∷ 0x0e ∷ 0x09 ∷ 0x00 ∷ 0x07 ∷ 0x12 ∷ 0x15 ∷ 0x1c
    ∷ 0x1b ∷ 0x01 ∷ 0x06 ∷ 0x0f ∷ 0x08 ∷ 0x1d ∷ 0x1a ∷ 0x13 ∷ 0x14 ∷ 0x0d ∷ 0x0a ∷ 0x03 ∷ 0x04
    ∷ 0x11 ∷ 0x16 ∷ 0x1f ∷ 0x18 ∷ 0x02 ∷ 0x05 ∷ 0x0c ∷ 0x0b ∷ 0x1e ∷ 0x19 ∷ 0x10 ∷ 0x17 ∷ 0x13
    ∷ 0x14 ∷ 0x1d ∷ 0x1a ∷ 0x0f ∷ 0x08 ∷ 0x01 ∷ 0x06 ∷ 0x1c ∷ 0x1b ∷ 0x12 ∷ 0x15 ∷ 0x00 ∷ 0x07
    ∷ 0x0e ∷ 0x09 ∷ 0x06 ∷ 0x01 ∷ 0x08 ∷ 0x0f ∷ 0x1a ∷ 0x1d ∷ 0x14 ∷ 0x13 ∷ 0x09 ∷ 0x0e ∷ 0x07
    ∷ 0x00 ∷ 0x15 ∷ 0x12 ∷ 0x1b ∷ 0x1c ∷ 0x18 ∷ 0x1f ∷ 0x16 ∷ 0x11 ∷ 0x04 ∷ 0x03 ∷ 0x0a ∷ 0x0d
    ∷ 0x17 ∷ 0x10 ∷ 0x19 ∷ 0x1e ∷ 0x0b ∷ 0x0c ∷ 0x05 ∷ 0x02 ∷ []

-- `g_crc64_xz_table`
abbrev pub xz_table : List ℕ
xz_table =
    0x0000000000000000 ∷ 0x09a87409262a286d ∷ 0x1350e8124c5450da ∷ 0x1af89c1b6a7e78b7
    ∷ 0x0effcc19ed95e633 ∷ 0x0757b810cbbfce5e ∷ 0x1daf240ba1c1b6e9 ∷ 0x1407500287eb9e84
    ∷ 0x1dff9833db2bcc66 ∷ 0x1457ec3afd01e40b ∷ 0x0eaf7021977f9cbc ∷ 0x07070428b155b4d1
    ∷ 0x1300542a36be2a55 ∷ 0x1aa8202310940238 ∷ 0x0050bc387aea7a8f ∷ 0x09f8c8315cc052e2
    ∷ 0x13a12c5ac36adf4b ∷ 0x1a095853e540f726 ∷ 0x00f1c4488f3e8f91 ∷ 0x0959b041a914a7fc
    ∷ 0x1d5ee0432eff3978 ∷ 0x14f6944a08d51115 ∷ 0x0e0e085162ab69a2 ∷ 0x07a67c58448141cf
    ∷ 0x0e5eb4691841132d ∷ 0x07f6c0603e6b3b40 ∷ 0x1d0e5c7b541543f7 ∷ 0x14a62872723f6b9a
    ∷ 0x00a17870f5d4f51e ∷ 0x09090c79d3fedd73 ∷ 0x13f19062b980a5c4 ∷ 0x1a59e46b9faa8da9
    ∷ 0x0f1c4488f3e8f911 ∷ 0x06b43081d5c2d17c ∷ 0x1c4cac9abfbca9cb ∷ 0x15e4d893999681a6
    ∷ 0x01e388911e7d1f22 ∷ 0x084bfc983857374f ∷ 0x12b3608352294ff8 ∷ 0x1b1b148a74036795
    ∷ 0x12e3dcbb28c33577 ∷ 0x1b4ba8b20ee91d1a ∷ 0x01b334a9649765ad ∷ 0x081b40a042bd4dc0
    ∷ 0x1c1c10a2c556d344 ∷ 0x15b464abe37cfb29 ∷ 0x0f4cf8b08902839e ∷ 0x06e48cb9af28abf3
    ∷ 0x1cbd68d23082265a ∷ 0x15151cdb16a80e37 ∷ 0x0fed80c07cd67680 ∷ 0x0645f4c95afc5eed
    ∷ 0x1242a4cbdd17c069 ∷ 0x1bead0c2fb3de804 ∷ 0x01124cd9914390b3 ∷ 0x08ba38d0b769b8de
    ∷ 0x0142f0e1eba9ea3c ∷ 0x08ea84e8cd83c251 ∷ 0x121218f3a7fdbae6 ∷ 0x1bba6cfa81d7928b
    ∷ 0x0fbd3cf8063c0c0f ∷ 0x061548f120162462 ∷ 0x1cedd4ea4a685cd5 ∷ 0x1545a0e36c4274b8
    ∷ 0x1e388911e7d1f222 ∷ 0x1790fd18c1fbda4f ∷ 0x0d686103ab85a2f8 ∷ 0x04c0150a8daf8a95
    ∷ 0x10c745080a441411 ∷ 0x196f31012c6e3c7c ∷ 0x0397ad1a461044cb ∷ 0x0a3fd913603a6ca6
    ∷ 0x03c711223cfa3e44 ∷ 0x0a6f652b1ad01629 ∷ 0x1097f93070ae6e9e ∷ 0x193f8d39568446f3
    ∷ 0x0d38dd3bd16fd877 ∷ 0x0490a932f745f01a ∷ 0x1e6835299d3b88ad ∷ 0x17c04120bb11a0c0
    ∷ 0x0d99a54b24bb2d69 ∷ 0x0431d14202910504 ∷ 0x1ec94d5968ef7db3 ∷ 0x176139504ec555de
    ∷ 0x03666952c92ecb5a ∷ 0x0ace1d5bef04e337 ∷ 0x10368140857a9b80 ∷ 0x199ef549a350b3ed
    ∷ 0x10663d78ff90e10f ∷ 0x19ce4971d9bac962 ∷ 0x0336d56ab3c4b1d5 ∷ 0x0a9ea16395ee99b8
    ∷ 0x1e99f1611205073c ∷ 0x17318568342f2f51 ∷ 0x0dc919735e5157e6 ∷ 0x04616d7a787b7f8b
    ∷ 0x1124cd9914390b33 ∷ 0x188cb9903213235e ∷ 0x0274258b586d5be9 ∷ 0x0bdc51827e477384
    ∷ 0x1fdb0180f9aced00 ∷ 0x16737589df86c56d ∷ 0x0c8be992b5f8bdda ∷ 0x05239d9b93d295b7
    ∷ 0x0cdb55aacf12c755 ∷ 0x057321a3e938ef38 ∷ 0x1f8bbdb88346978f ∷ 0x1623c9b1a56cbfe2
    ∷ 0x022499b322872166 ∷ 0x0b8cedba04ad090b ∷ 0x117471a16ed371bc ∷ 0x18dc05a848f959d1
    ∷ 0x0285e1c3d753d478 ∷ 0x0b2d95caf179fc15 ∷ 0x11d509d19b0784a2 ∷ 0x187d7dd8bd2daccf
    ∷ 0x0c7a2dda3ac6324b ∷ 0x05d259d31cec1a26 ∷ 0x1f2ac5c876926291 ∷ 0x1682b1c150b84afc
    ∷ 0x1f7a79f00c78181e ∷ 0x16d20df92a523073 ∷ 0x0c2a91e2402c48c4 ∷ 0x0582e5eb660660a9
    ∷ 0x1185b5e9e1edfe2d ∷ 0x182dc1e0c7c7d640 ∷ 0x02d55dfbadb9aef7 ∷ 0x0b7d29f28b93869a
    ∷ 0x142f0e1eba9ea3c3 ∷ 0x1d877a179cb48bae ∷ 0x077fe60cf6caf319 ∷ 0x0ed79205d0e0db74
    ∷ 0x1ad0c207570b45f0 ∷ 0x1378b60e71216d9d ∷ 0x09802a151b5f152a ∷ 0x00285e1c3d753d47
    ∷ 0x09d0962d61b56fa5 ∷ 0x0078e224479f47c8 ∷ 0x1a807e3f2de13f7f ∷ 0x13280a360bcb1712
    ∷ 0x072f5a348c208996 ∷ 0x0e872e3daa0aa1fb ∷ 0x147fb226c074d94c ∷ 0x1dd7c62fe65ef121
    ∷ 0x078e224479f47c88 ∷ 0x0e26564d5fde54e5 ∷ 0x14deca5635a02c52 ∷ 0x1d76be5f138a043f
    ∷ 0x0971ee5d94619abb ∷ 0x00d99a54b24bb2d6 ∷ 0x1a21064fd835ca61 ∷ 0x13897246fe1fe20c
    ∷ 0x1a71ba77a2dfb0ee ∷ 0x13d9ce7e84f59883 ∷ 0x09215265ee8be034 ∷ 0x0089266cc8a1c859
    ∷ 0x148e766e4f4a56dd ∷ 0x1d26026769607eb0 ∷ 0x07de9e7c031e0607 ∷ 0x0e76ea7525342e6a
    ∷ 0x1b334a9649765ad2 ∷ 0x129b3e9f6f5c72bf ∷ 0x0863a28405220a08 ∷ 0x01cbd68d23082265
    ∷ 0x15cc868fa4e3bce1 ∷ 0x1c64f28682c9948c ∷ 0x069c6e9de8b7ec3b ∷ 0x0f341a94ce9dc456
    ∷ 0x06ccd2a5925d96b4 ∷ 0x0f64a6acb477bed9 ∷ 0x159c3ab7de09c66e ∷ 0x1c344ebef823ee03
    ∷ 0x08331ebc7fc87087 ∷ 0x019b6ab559e258ea ∷ 0x1b63f6ae339c205d ∷ 0x12cb82a715b60830
    ∷ 0x089266cc8a1c8599 ∷ 0x013a12c5ac36adf4 ∷ 0x1bc28edec648d543 ∷ 0x126afad7e062fd2e
    ∷ 0x066daad5678963aa ∷ 0x0fc5dedc41a34bc7 ∷ 0x153d42c72bdd3370 ∷ 0x1c9536ce0df71b1d
    ∷ 0x156dfeff513749ff ∷ 0x1cc58af6771d6192 ∷ 0x063d16ed1d631925 ∷ 0x0f9562e43b493148
    ∷ 0x1b9232e6bca2afcc ∷ 0x123a46ef9a8887a1 ∷ 0x08c2daf4f0f6ff16 ∷ 0x016aaefdd6dcd77b
    ∷ 0x0a17870f5d4f51e1 ∷ 0x03bff3067b65798c ∷ 0x19476f1d111b013b ∷ 0x10ef1b1437312956
    ∷ 0x04e84b16b0dab7d2 ∷ 0x0d403f1f96f09fbf ∷ 0x17b8a304fc8ee708 ∷ 0x1e10d70ddaa4cf65
    ∷ 0x17e81f3c86649d87 ∷ 0x1e406b35a04eb5ea ∷ 0x04b8f72eca30cd5d ∷ 0x0d108327ec1ae530
    ∷ 0x1917d3256bf17bb4 ∷ 0x10bfa72c4ddb53d9 ∷ 0x0a473b3727a52b6e ∷ 0x03ef4f3e018f0303
    ∷ 0x19b6ab559e258eaa ∷ 0x101edf5cb80fa6c7 ∷ 0x0ae64347d271de70 ∷ 0x034e374ef45bf61d
    ∷ 0x1749674c73b06899 ∷ 0x1ee11345559a40f4 ∷ 0x04198f5e3fe43843 ∷ 0x0db1fb5719ce102e
    ∷ 0x04493366450e42cc ∷ 0x0de1476f63246aa1 ∷ 0x1719db74095a1216 ∷ 0x1eb1af7d2f703a7b
    ∷ 0x0ab6ff7fa89ba4ff ∷ 0x031e8b768eb18c92 ∷ 0x19e6176de4cff425 ∷ 0x104e6364c2e5dc48
    ∷ 0x050bc387aea7a8f0 ∷ 0x0ca3b78e888d809d ∷ 0x165b2b95e2f3f82a ∷ 0x1ff35f9cc4d9d047
    ∷ 0x0bf40f9e43324ec3 ∷ 0x025c7b97651866ae ∷ 0x18a4e78c0f661e19 ∷ 0x110c9385294c3674
    ∷ 0x18f45bb4758c6496 ∷ 0x115c2fbd53a64cfb ∷ 0x0ba4b3a639d8344c ∷ 0x020cc7af1ff21c21
    ∷ 0x160b97ad981982a5 ∷ 0x1fa3e3a4be33aac8 ∷ 0x055b7fbfd44dd27f ∷ 0x0cf30bb6f267fa12
    ∷ 0x16aaefdd6dcd77bb ∷ 0x1f029bd44be75fd6 ∷ 0x05fa07cf21992761 ∷ 0x0c5273c607b30f0c
    ∷ 0x185523c480589188 ∷ 0x11fd57cda672b9e5 ∷ 0x0b05cbd6cc0cc152 ∷ 0x02adbfdfea26e93f
    ∷ 0x0b5577eeb6e6bbdd ∷ 0x02fd03e790cc93b0 ∷ 0x18059ffcfab2eb07 ∷ 0x11adebf5dc98c36a
    ∷ 0x05aabbf75b735dee ∷ 0x0c02cffe7d597583 ∷ 0x16fa53e517270d34 ∷ 0x1f5227ec310d2559 ∷ []
